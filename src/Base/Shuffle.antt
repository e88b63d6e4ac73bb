-- ===== src/Base/Shuffle.antt =====
-- What no permutation of a list changes: its length, and the elements that pass a test.
use mathlib.Core.Path.{◌≡◌, refl, ap, ap₂, ◌∙◌}
use mathlib.Core.Bool.{Bool, true, false, So-prop}
use mathlib.Core.Logic.{inl, inr, ∥∥₁_elim, ∥∥₁_map, ◌↔◌}
use mathlib.Core.List.{
  List, [], ◌∷◌, map, Perm, Permᴰ, Mem, mem-cons_self, eq-or-mem_of_mem-cons, not-mem-nil,
  mem-cons_of_mem, Mem-prop,
}
use mathlib.Core.Logic.Or
use mathlib.Core.List.Permᴰ
use mathlib.Core.HLevel.{×_prop}
use native.Mathlib.Nat.{ℕ_set}
use Prim.Native.Nat.{ℕ, ◌+◌}
use native.Mathlib.Omega.{arith}
use code_iq.Base.Tests.{if◌then◌else◌, Bool-cases}
use code_iq.Base.Lists.{length, keep, sum}

module _ {A : Type 0} where
  length-perm' : (l r : List A) → Permᴰ l r → length l ≡ length r
  length-perm' l r Permᴰ.nil = refl
  length-perm' l r (Permᴰ.cons {l₁} {l₂} e p) = omega (arith, length-perm' l₁ l₂ p)
  length-perm' l r (Permᴰ.swap e f) = refl
  length-perm' l r (Permᴰ.trans {l₁} {l₂} {l₃} p q) = length-perm' l₁ l₂ p ∙ length-perm' l₂ l₃ q

  pub length-perm : {l r : List A} → Perm l r → length l ≡ length r
  length-perm {l} {r} p = ∥∥₁_elim p (ℕ_set _ _) (length-perm' l r)

  sum-perm' : (f : A → ℕ) (l r : List A) → Permᴰ l r → sum (map f l) ≡ sum (map f r)
  sum-perm' f l r Permᴰ.nil = refl
  sum-perm' f l r (Permᴰ.cons {l₁} {l₂} e p) = ap₂ (λ m n. m + n) (ap f e) (sum-perm' f l₁ l₂ p)
  sum-perm' f l r (Permᴰ.swap e g) = rw (e, g) (omega arith)
  sum-perm' f l r (Permᴰ.trans {l₁} {l₂} {l₃} p q) = sum-perm' f l₁ l₂ p ∙ sum-perm' f l₂ l₃ q

  pub sum-perm : (f : A → ℕ) {l r : List A} → Perm l r → sum (map f l) ≡ sum (map f r)
  sum-perm f {l} {r} p = ∥∥₁_elim p (ℕ_set _ _) (sum-perm' f l r)

  keep-perm' : (t : A → Bool) (l r : List A) → Permᴰ l r → Permᴰ (keep t l) (keep t r)
  keep-perm' t l r Permᴰ.nil = Permᴰ.nil
  keep-perm' t l r (Permᴰ.cons {a} {b} {l₁} {l₂} e p) = elim (Bool-cases (t b)) [
    | inl passes ↦ rw (ap t e, passes) (Permᴰ.cons e (keep-perm' t l₁ l₂ p))
    | inr fails ↦ rw (ap t e, fails) (keep-perm' t l₁ l₂ p)
  ]
  keep-perm' t l r (Permᴰ.swap {a} {b} {a' = a'} {b' = b'} {l = l₁} e f) =
      rw (e, f) (swap_kept (t b') (t a'))
    where
      rest : List A
      rest = keep t l₁

      swap_kept :
          (u v : Bool)
          → Permᴰ
              (if u then b' ∷ (if v then a' ∷ rest else rest) else if v then a' ∷ rest else rest)
              (if v then a' ∷ (if u then b' ∷ rest else rest) else if u then b' ∷ rest else rest)
      swap_kept true true = Permᴰ.swap refl refl
      swap_kept true false = Permᴰ.refl _
      swap_kept false true = Permᴰ.refl _
      swap_kept false false = Permᴰ.refl _
  keep-perm' t l r (Permᴰ.trans {l₁} {l₂} {l₃} p q) =
      Permᴰ.trans (keep-perm' t l₁ l₂ p) (keep-perm' t l₂ l₃ q)

  pub keep-perm : (t : A → Bool) {l r : List A} → Perm l r → Perm (keep t l) (keep t r)
  keep-perm t {l} {r} p = ∥∥₁_map p (keep-perm' t l r)

  mem-keep→ : (t : A → Bool) (x : A) (l : List A) → Mem x (keep t l) → Mem x l × (t x ≡ true)
  mem-keep→ t x [] m = absurd (not-mem-nil m)
  mem-keep→ t x (y ∷ l) m = elim (Bool-cases (t y)) [
    | inl passes ↦
        Or.elim (×_prop Mem-prop (So-prop _)) (eq-or-mem_of_mem-cons (rw passes at m))
          (λ e. (rw e mem-cons_self, rw e passes))
          (λ later. let (found, ok) = mem-keep→ t x l later in (mem-cons_of_mem y found, ok))
    | inr fails ↦ let (found, ok) = mem-keep→ t x l (rw fails at m) in (mem-cons_of_mem y found, ok)
  ]

  mem-keep← : (t : A → Bool) (x : A) (l : List A) → t x ≡ true → Mem x l → Mem x (keep t l)
  mem-keep← t x [] ok m = absurd (not-mem-nil m)
  mem-keep← t x (y ∷ l) ok m =
      Or.elim Mem-prop (eq-or-mem_of_mem-cons m) (λ e. rw (← ap t e, ok) (rw e mem-cons_self))
        (λ later. elim (Bool-cases (t y)) [
          | inl passes ↦ rw passes (mem-cons_of_mem y (mem-keep← t x l ok later))
          | inr fails ↦ rw fails (mem-keep← t x l ok later)
        ])

  pub mem-keep : (t : A → Bool) (x : A) (l : List A) → Mem x (keep t l) ↔ (Mem x l × (t x ≡ true))
  mem-keep t x l = (mem-keep→ t x l, λ (m, ok). mem-keep← t x l ok m)
