-- ===== src/Base/Sort.antt =====
-- `sort.Slice` by a text key. The sort is stable; a caller that Go lets see another order of
-- equal keys has that order in the input, which for a map is any permutation of its entries.
pub mod With
use mathlib.Core.Path.{◌≡◌, sym, ap₂}
use mathlib.Core.Bool.{Bool, true, false, So-prop}
use mathlib.Core.HLevel.{¬_prop}
use mathlib.Core.Logic.{◌≢◌, inl, inr}
use mathlib.Core.Logic.Or
use mathlib.Core.List.{
  List, [], ◌∷◌, map, Mem, Perm, Pairwise, Nodup, mem-cons_self, mem-cons_of_mem,
  eq-or-mem_of_mem-cons, not-mem-nil, mem-map_of_mem,
}
use mathlib.Core.List.Pairwise
use mathlib.Core.List.Perm
use native.Mathlib.Omega.{arith}
use code_iq.Base.Tests.{if◌then◌else◌, Bool-cases}
use code_iq.Base.Text.{Text, text_lt, text_lt_irrefl, text_lt_trans, text_lt_total}

-- `a` does not come after `b`.
abbrev pub TextLe : Text → Text → Type 0
TextLe s t = text_lt t s ≡ false

pub TextLe-trans : (s t u : Text) → TextLe s t → TextLe t u → TextLe s u
TextLe-trans s t u h k = elim (Bool-cases (text_lt u s)) [
  | inl lt ↦ elim (Bool-cases (text_lt s t)) [
    | inl st ↦ cc (text_lt_trans u s t lt st)
    | inr ge ↦ cc (k, lt, text_lt_total s t ge h)
  ]
  | inr ge ↦ ge
]

pub TextLe-of_lt : (s t : Text) → text_lt s t ≡ true → TextLe s t
TextLe-of_lt s t h = elim (Bool-cases (text_lt t s)) [
  | inl lt ↦ cc (text_lt_irrefl s, text_lt_trans s t s h lt)
  | inr ge ↦ ge
]

module _ {A : Type 0} (key : A → Text) where
  insert_sorted : A → List A → List A
  insert_sorted x [] = x ∷ []
  insert_sorted x (y ∷ ys) = if text_lt (key y) (key x) then y ∷ insert_sorted x ys else x ∷ y ∷ ys

  unfoldable pub sort_by : List A → List A
  unfolding insert_sorted
  sort_by [] = []
  sort_by (x ∷ xs) = insert_sorted x (sort_by xs)

  abbrev pub IsSorted : List A → Type 0
  IsSorted = Pairwise (λ a b. TextLe (key a) (key b))

  insert_sorted-perm : (x : A) (xs : List A) → Perm (insert_sorted x xs) (x ∷ xs)
  unfolding insert_sorted
  insert_sorted-perm x [] = Perm.refl (x ∷ [])
  insert_sorted-perm x (y ∷ ys) = elim (Bool-cases (text_lt (key y) (key x))) [
    | inl lt ↦ rw lt (Perm.trans (Perm.cons y (insert_sorted-perm x ys)) (Perm.swap x y ys))
    | inr ge ↦ rw ge (Perm.refl (x ∷ y ∷ ys))
  ]

  -- The result holds the same elements.
  pub sort_by-perm : (xs : List A) → Perm (sort_by xs) xs
  unfolding sort_by
  sort_by-perm [] = Perm.refl []
  sort_by-perm (x ∷ xs) =
      Perm.trans (insert_sorted-perm x (sort_by xs)) (Perm.cons x (sort_by-perm xs))

  le_prop : (a b : A) → IsProp (TextLe (key a) (key b))
  le_prop a b = hlevel

  abbrev IsBelow : A → List A → Type 0
  IsBelow a l = (b : A) → Mem b l → TextLe (key a) (key b)

  IsBelow-cons : (a b : A) (l : List A) → TextLe (key a) (key b) → IsBelow a l → IsBelow a (b ∷ l)
  IsBelow-cons a b l h k c m = Or.elim (le_prop a c) (eq-or-mem_of_mem-cons m) (λ e. rw e h) (k c)

  IsBelow-perm : (a : A) (l r : List A) → Perm l r → IsBelow a r → IsBelow a l
  IsBelow-perm a l r p h x m = h x ((Perm.mem_iff p).0 m)

  insert_sorted-IsSorted : (x : A) (xs : List A) → IsSorted xs → IsSorted (insert_sorted x xs)
  unfolding insert_sorted
  insert_sorted-IsSorted x [] s = Pairwise.cons (λ b m. absurd (not-mem-nil m)) Pairwise.nil
  insert_sorted-IsSorted x (y ∷ ys) (Pairwise.cons h s) =
      elim (Bool-cases (text_lt (key y) (key x))) [
        | inl lt ↦ rw lt (
            Pairwise.cons
              (IsBelow-perm y (insert_sorted x ys) (x ∷ ys) (insert_sorted-perm x ys)
                (IsBelow-cons y x ys (TextLe-of_lt (key y) (key x) lt) h))
              (insert_sorted-IsSorted x ys s))
        | inr ge ↦ rw ge (
            Pairwise.cons
              (IsBelow-cons x y ys ge (λ b m. TextLe-trans (key x) (key y) (key b) ge (h b m)))
              (Pairwise.cons h s))
      ]

  -- The keys ascend.
  pub sort_by-IsSorted : (xs : List A) → IsSorted (sort_by xs)
  unfolding sort_by
  sort_by-IsSorted [] = Pairwise.nil
  sort_by-IsSorted (x ∷ xs) = insert_sorted-IsSorted x (sort_by xs) (sort_by-IsSorted xs)

  -- No two elements share a key.
  abbrev pub HasDistinctKeys : List A → Type 0
  HasDistinctKeys = Pairwise (λ a b. key a ≢ key b)

  heads_eq :
      (set : IsSet A) (a b : A) (l r : List A)
      → IsSorted (a ∷ l)
      → IsSorted (b ∷ r)
      → HasDistinctKeys (a ∷ l)
      → Perm (a ∷ l) (b ∷ r)
      → a ≡ b
  heads_eq set a b l r (Pairwise.cons ha sa) (Pairwise.cons hb sb) (Pairwise.cons d ds) p =
      Or.elim (set a b) (eq-or-mem_of_mem-cons ((Perm.mem_iff p).0 mem-cons_self)) (λ e. e)
        λ in_r.
          Or.elim (set a b) (eq-or-mem_of_mem-cons ((Perm.mem_iff p).1 mem-cons_self)) (λ e. sym e)
            (λ in_l. absurd (d b in_l (text_lt_total (key a) (key b) (hb a in_r) (ha b in_l))))

  -- Elements with distinct keys have one sorted order, whatever the order they come in.
  pub IsSorted-eq_of_perm :
      (set : IsSet A) {l r : List A}
      → IsSorted l
      → IsSorted r
      → HasDistinctKeys l
      → Perm l r
      → l ≡ r
  IsSorted-eq_of_perm set {l = []} _ _ _ p = Perm.nil-eq p
  IsSorted-eq_of_perm set {l = a ∷ l} {r = []} _ _ _ p = Perm.eq-nil p
  IsSorted-eq_of_perm set {l = a ∷ l} {r = b ∷ r} sl sr d p =
      let heads = heads_eq set a b l r sl sr d p in
      let tails = Perm.cons_inv (Perm.trans p (Perm.symm (Perm.cons' heads Perm.rfl))) in
      ap₂ ◌∷◌ heads (
        IsSorted-eq_of_perm set {l = l} (Pairwise.of_cons sl) (Pairwise.of_cons sr)
          (Pairwise.of_cons d) tails)

  ne_sym : (a b : A) → key a ≢ key b → key b ≢ key a
  ne_sym a b h e = h (sym e)

  pub HasDistinctKeys-perm : {l r : List A} → Perm l r → HasDistinctKeys l → HasDistinctKeys r
  HasDistinctKeys-perm p d =
      Perm.pairwise {R = λ a b. key a ≢ key b} (λ a b. ¬_prop) (λ a b. ne_sym a b) p d

  pub sort_by-perm_eq :
      (set : IsSet A) {l r : List A} → HasDistinctKeys l → Perm l r → sort_by l ≡ sort_by r
  sort_by-perm_eq set {l} {r} d p =
      IsSorted-eq_of_perm set (sort_by-IsSorted l) (sort_by-IsSorted r)
        (HasDistinctKeys-perm (Perm.symm (sort_by-perm l)) d)
        (Perm.trans (sort_by-perm l) (Perm.trans p (Perm.symm (sort_by-perm r))))
