-- ===== src/Base/Sort/With.antt =====
-- `sort.Slice` by any comparison.
pub mod Unique
use mathlib.Core.Path.{◌≡◌}
use mathlib.Core.Bool.{Bool, true, false}
use mathlib.Core.Logic.{inl, inr}
use mathlib.Core.Logic.Or
use mathlib.Core.List.{List, [], ◌∷◌, Perm, Pairwise, eq-or-mem_of_mem-cons, not-mem-nil}
use mathlib.Core.List.Perm
use code_iq.Base.Tests.{if◌then◌else◌, Bool-cases}

module _ {A : Type 0} (less : A → A → Bool) where
  insert_with : A → List A → List A
  insert_with x [] = x ∷ []
  insert_with x (y ∷ ys) = if less y x then y ∷ insert_with x ys else x ∷ y ∷ ys

  unfoldable pub sort_with : List A → List A
  unfolding insert_with
  sort_with [] = []
  sort_with (x ∷ xs) = insert_with x (sort_with xs)

  -- No element stands before one that is less.
  abbrev pub IsOrdered : List A → Type 0
  IsOrdered = Pairwise (λ a b. less b a ≡ false)

  insert_with-perm : (x : A) (xs : List A) → Perm (insert_with x xs) (x ∷ xs)
  unfolding insert_with
  insert_with-perm x [] = Perm.refl (x ∷ [])
  insert_with-perm x (y ∷ ys) = elim (Bool-cases (less y x)) [
    | inl lt ↦ rw lt (Perm.trans (Perm.cons y (insert_with-perm x ys)) (Perm.swap x y ys))
    | inr ge ↦ rw ge (Perm.refl (x ∷ y ∷ ys))
  ]

  pub sort_with-perm : (xs : List A) → Perm (sort_with xs) xs
  unfolding sort_with
  sort_with-perm [] = Perm.refl []
  sort_with-perm (x ∷ xs) =
      Perm.trans (insert_with-perm x (sort_with xs)) (Perm.cons x (sort_with-perm xs))

  module _ (asym : (a b : A) → less a b ≡ true → less b a ≡ false)
      (trans : (a b c : A) → less b a ≡ false → less c b ≡ false → less c a ≡ false) where
    less_prop : (a b : A) → IsProp (less a b ≡ false)
    less_prop a b = hlevel

    insert_with-IsOrdered : (x : A) (xs : List A) → IsOrdered xs → IsOrdered (insert_with x xs)
    unfolding insert_with
    insert_with-IsOrdered x [] s = Pairwise.cons (λ b m. absurd (not-mem-nil m)) Pairwise.nil
    insert_with-IsOrdered x (y ∷ ys) (Pairwise.cons h s) = elim (Bool-cases (less y x)) [
      | inl lt ↦ rw lt (
          Pairwise.cons
            (λ b m.
              Or.elim (less_prop b y)
                (eq-or-mem_of_mem-cons ((Perm.mem_iff (insert_with-perm x ys)).0 m))
                (λ e. rw e (asym y x lt)) (h b))
            (insert_with-IsOrdered x ys s))
      | inr ge ↦ rw ge (
          Pairwise.cons
            (λ b m.
              Or.elim (less_prop b x) (eq-or-mem_of_mem-cons m) (λ e. rw e ge)
                (λ later. trans x y b ge (h b later)))
            (Pairwise.cons h s))
    ]

    pub sort_with-IsOrdered : (xs : List A) → IsOrdered (sort_with xs)
    unfolding sort_with
    sort_with-IsOrdered [] = Pairwise.nil
    sort_with-IsOrdered (x ∷ xs) = insert_with-IsOrdered x (sort_with xs) (sort_with-IsOrdered xs)
