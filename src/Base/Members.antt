-- ===== src/Base/Members.antt =====
-- The test `contains` against the library's membership, and lists without repetition.
use mathlib.Core.Path.{◌≡◌, sym, subst}
use mathlib.Core.Bool.{true, false, So-prop}
use mathlib.Core.Logic.{inl, inr, ◌↔◌}
use mathlib.Core.Logic.Or
use mathlib.Core.List.{
  List, [], ◌∷◌, append-nil, Perm, Mem, Nodup, mem-cons_self, eq-or-mem_of_mem-cons, not-mem-nil,
  mem-cons_of_mem, perm_ext_iff_of_Nodup, ◌++◌, Pairwise,
}
use mathlib.Core.List.Perm
use mathlib.Core.List.Pairwise
use native.Mathlib.Omega.{arith}
use code_iq.Base.Tests.{Eq, ◌==◌, Bool-cases}
use code_iq.Base.Lists.{contains}

module _ {A : Type 0} where
  append_cons-perm : (a : A) (l r : List A) → Perm (l ++ a ∷ r) (a ∷ (l ++ r))
  append_cons-perm a [] r = Perm.rfl
  append_cons-perm a (b ∷ l) r =
      Perm.trans (Perm.cons b (append_cons-perm a l r)) (Perm.swap a b (l ++ r))

  pub append_swap-perm : (l r : List A) → Perm (l ++ r) (r ++ l)
  append_swap-perm [] r = subst (Perm r) (sym (append-nil r)) Perm.rfl
  append_swap-perm (a ∷ l) r =
      Perm.trans (Perm.cons a (append_swap-perm l r)) (Perm.symm (append_cons-perm a r l))

  pub Nodup-suffix : (l r : List A) → Nodup (l ++ r) → Nodup r
  Nodup-suffix [] r n = n
  Nodup-suffix (a ∷ l) r n = Nodup-suffix l r (Pairwise.of_cons n)

module _ {A : Type 0} ⦃e : Eq A⦄ where
  contains→mem : (a : A) (l : List A) → contains a l ≡ true → Mem a l
  contains→mem a [] h = cc
  contains→mem a (x ∷ l) h = elim (Bool-cases (a == x)) [
    | inl here ↦ rw ((e.beq_iff a x).0 here) mem-cons_self
    | inr there ↦ mem-cons_of_mem x (contains→mem a l (ground arith))
  ]

  mem→contains : (a : A) (l : List A) → Mem a l → contains a l ≡ true
  mem→contains a [] m = absurd (not-mem-nil m)
  mem→contains a (x ∷ l) m =
      Or.elim (So-prop _) (eq-or-mem_of_mem-cons m) (λ same. ground (arith, e.beq_iff a x))
        (λ later. ground (arith, mem→contains a l later))

  pub contains_iff_mem : (a : A) (l : List A) → (contains a l ≡ true) ↔ Mem a l
  contains_iff_mem a l = (contains→mem a l, mem→contains a l)

  pub not_mem_of_contains : (a : A) (l : List A) → contains a l ≡ false → ¬ Mem a l
  not_mem_of_contains a l h m = cc (mem→contains a l m)

  -- Two tests that pass for the same members agree.
  pub contains_ext : (a : A) (l r : List A) → (Mem a l ↔ Mem a r) → contains a l ≡ contains a r
  contains_ext a l r h = elim (Bool-cases (contains a l)) [
    | inl yes_l ↦ rw yes_l (sym (mem→contains a r (h.0 (contains→mem a l yes_l))))
    | inr no_l ↦ elim (Bool-cases (contains a r)) [
      | inl yes_r ↦ cc (mem→contains a l (h.1 (contains→mem a r yes_r)))
      | inr no_r ↦ cc
    ]
  ]

  pub contains-perm : (a : A) {l r : List A} → Perm l r → contains a l ≡ contains a r
  contains-perm a {l} {r} p = contains_ext a l r (Perm.mem_iff p)

  -- Lists without repetition that pass the same tests are permutations of one another.
  pub perm_of_contains :
      {l r : List A} → Nodup l → Nodup r → ((a : A) → contains a l ≡ contains a r) → Perm l r
  perm_of_contains {l} {r} nl nr h = (perm_ext_iff_of_Nodup nl nr).1 (λ a. (
    λ m. contains→mem a r (cc (h a, mem→contains a l m)),
    λ m. contains→mem a l (cc (h a, mem→contains a r m)),
  ))

  -- A new element at the end.
  pub Nodup-append_new : (a : A) (l : List A) → Nodup l → contains a l ≡ false → Nodup (l ++ a ∷ [])
  Nodup-append_new a l n new =
      Perm.nodup (append_swap-perm (a ∷ []) l)
        (Pairwise.cons (λ b m same. not_mem_of_contains a l new (rw same m)) n)
