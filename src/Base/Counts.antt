-- ===== src/Base/Counts.antt =====
-- Maps of counters.
use Prim.Native.Nat.{ℕ, suc, ◌+◌}
use mathlib.Core.Path.{◌≡◌}
use mathlib.Core.Logic.{inl, inr}
use mathlib.Core.Bool.{Bool, true, false}
use mathlib.Core.Option.{Option, none, some}
use mathlib.Core.List.{List, [], ◌∷◌, foldl}
use native.Mathlib.Omega.{arith}
use code_iq.Base.Tests.{◌==◌, Option-cases}
use code_iq.Base.Lists.{length, keep, sum}
use code_iq.Base.Text.{Text, text_eq, text_beq_iff}
use code_iq.Base.Assoc.{values, lookup, insert, lookup-insert}
use code_iq.Base.Assoc.Distinct.{IsDistinct, insert-IsDistinct}

-- `m[name]` of a map of counters, and `m[name]++`.
abbrev pub count_at : List (Text × ℕ) → Text → ℕ
count_at m name = elim (lookup name m) [ none ↦ 0 | some n ↦ n ]

unfoldable pub increment : List (Text × ℕ) → Text → List (Text × ℕ)
increment m name = insert name (suc (count_at m name)) m

-- A loop that counts elements under their names; `none` is an element that it skips.
unfoldable pub count_under : {A : Type 0} → (A → Option Text) → List A → List (Text × ℕ)
unfolding increment
count_under name_of = foldl (λ m x. elim (name_of x) [ none ↦ m | some name ↦ increment m name ]) []

-- The elements that such a loop counts, and those that it counts under one name.
abbrev pub is_counted : Option Text → Bool
is_counted none = false
is_counted (some name) = true

abbrev pub is_under : Text → Option Text → Bool
is_under t none = false
is_under t (some name) = name == t

sum-increment :
    (m : List (Text × ℕ)) (name : Text) → sum (values (increment m name)) ≡ suc (sum (values m))
unfolding increment insert lookup
sum-increment [] name = omega arith
sum-increment ((t, n) ∷ m) name = ground (arith, text_beq_iff t name, sum-increment m name)

module _ {A : Type 0} (name_of : A → Option Text) where
  abbrev step : List (Text × ℕ) → A → List (Text × ℕ)
  step m x = elim (name_of x) [ none ↦ m | some name ↦ increment m name ]

  sum-fold :
      (xs : List A) (m : List (Text × ℕ))
      → sum (values (foldl step m xs))
        ≡ sum (values m) + length (keep (λ x. is_counted (name_of x)) xs)
  sum-fold [] m = omega arith
  sum-fold (x ∷ xs) m = elim (Option-cases (name_of x)) [
    | inl skipped ↦ rw (step, skipped) (sum-fold xs m)
    | inr (name, counted) ↦
        rw (step, counted) (omega (arith, sum-fold xs (increment m name), sum-increment m name))
  ]

  -- The counters add up to the number of elements counted.
  pub sum-count_under :
      (xs : List A)
      → sum (values (count_under name_of xs)) ≡ length (keep (λ x. is_counted (name_of x)) xs)
  unfolding count_under
  sum-count_under xs = omega (arith, sum-fold xs [])

  at-fold :
      (t : Text) (xs : List A) (m : List (Text × ℕ))
      → count_at (foldl step m xs) t ≡ count_at m t + length (keep (λ x. is_under t (name_of x)) xs)
  unfolding increment
  at-fold t [] m = omega arith
  at-fold t (x ∷ xs) m = elim (Option-cases (name_of x)) [
    | inl skipped ↦ rw (step, skipped) (at-fold t xs m)
    | inr (name, counted) ↦
        rw (step, counted)
          (ground (
            arith,
            at-fold t xs (increment m name),
            lookup-insert name t (suc (count_at m name)) m,
            text_beq_iff name t,
          ))
  ]

  -- Each counter is the number of elements counted under its name.
  pub at-count_under :
      (t : Text) (xs : List A)
      → count_at (count_under name_of xs) t ≡ length (keep (λ x. is_under t (name_of x)) xs)
  unfolding count_under lookup
  at-count_under t xs = omega (arith, at-fold t xs [])

  distinct-fold : (xs : List A) (m : List (Text × ℕ)) → IsDistinct m → IsDistinct (foldl step m xs)
  unfolding increment
  distinct-fold [] m d = d
  distinct-fold (x ∷ xs) m d = elim (Option-cases (name_of x)) [
    | inl skipped ↦ rw (step, skipped) (distinct-fold xs m d)
    | inr (name, counted) ↦
        rw (step, counted)
          (distinct-fold xs (increment m name) (insert-IsDistinct name (suc (count_at m name)) m d))
  ]

  pub count_under-IsDistinct : (xs : List A) → IsDistinct (count_under name_of xs)
  unfolding count_under
  count_under-IsDistinct xs = distinct-fold xs [] tt
