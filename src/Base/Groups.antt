-- ===== src/Base/Groups.antt =====
-- Maps from a name to the list of what was appended under it, and lists without repetition.
use mathlib.Core.Path.{◌≡◌, refl, sym, ap, ◌∙◌}
use mathlib.Core.Bool.{not, ◌&&◌, ◌||◌}
use mathlib.Core.Logic.{inl, inr}
use mathlib.Core.Option.{none, some}
use mathlib.Core.List.{List, [], ◌∷◌, ◌++◌, map, foldl, append_assoc, append-nil, Nodup, Pairwise}
use native.Mathlib.Omega.{arith}
use code_iq.Base.Tests.{◌==◌, if◌then◌else◌, Bool-cases}
use code_iq.Base.Lists.{contains, keep}
use code_iq.Base.Text.{Text, text_eq, text_beq_iff}
use code_iq.Base.Assoc.{lookup, insert, has, lookup-insert, has-insert}
use code_iq.Base.Members.{contains_iff_mem}

-- The elements that are not in `seen`, each once, in the order of their first occurrence.
unfoldable pub distinct_from : List Text → List Text → List Text
distinct_from seen [] = []
distinct_from seen (x ∷ xs) =
    let old = distinct_from seen xs in
    let new = x ∷ distinct_from (x ∷ seen) xs in if contains x seen then old else new

pub contains-distinct_from :
    (t : Text) (seen xs : List Text)
    → contains t (distinct_from seen xs) ≡ (contains t xs && not (contains t seen))
unfolding distinct_from
contains-distinct_from t seen [] = refl
contains-distinct_from t seen (x ∷ xs) = ground (
  arith,
  text_beq_iff t x,
  contains-distinct_from t seen xs,
  contains-distinct_from t (x ∷ seen) xs,
)

pub distinct_from-Nodup : (seen xs : List Text) → Nodup (distinct_from seen xs)
unfolding distinct_from
distinct_from-Nodup seen [] = Pairwise.nil
distinct_from-Nodup seen (x ∷ xs) = elim (Bool-cases (contains x seen)) [
  | inl old ↦ rw old (distinct_from-Nodup seen xs)
  | inr new ↦ rw new (
      Pairwise.cons
        (λ b m e.
          let inside = (contains_iff_mem b (distinct_from (x ∷ seen) xs)).1 m in
          ground (arith, text_beq_iff b x, contains-distinct_from b (x ∷ seen) xs))
        (distinct_from-Nodup (x ∷ seen) xs))
]

abbrev pub distinct : List Text → List Text
distinct = distinct_from []

pub contains-distinct : (t : Text) (xs : List Text) → contains t (distinct xs) ≡ contains t xs
contains-distinct t xs = ground (arith, contains-distinct_from t [] xs)

-- `m[k]` of a map of slices.
abbrev pub get : {V : Type 0} → Text → List (Text × List V) → List V
get k m = elim (lookup k m) [ none ↦ [] | some vs ↦ vs ]

module _ {A V : Type 0} (key : A → Text) (val : A → V) where
  -- `m[key(x)] = append(m[key(x)], val(x))`
  unfoldable pub append_to : List (Text × List V) → A → List (Text × List V)
  append_to m x = insert (key x) (get (key x) m ++ val x ∷ []) m

  unfoldable pub group : List A → List (Text × List V)
  unfolding append_to
  group = foldl append_to []

  get-append_to :
      (k : Text) (m : List (Text × List V)) (x : A)
      → get k (append_to m x) ≡ (if key x == k then get k m ++ val x ∷ [] else get k m)
  unfolding append_to
  get-append_to k m x =
      ground
        (arith, lookup-insert (key x) k (get (key x) m ++ val x ∷ []) m, text_beq_iff (key x) k)

  get-fold :
      (k : Text) (xs : List A) (m : List (Text × List V))
      → get k (foldl append_to m xs) ≡ get k m ++ map val (keep (λ x. key x == k) xs)
  get-fold k [] m = sym (append-nil (get k m))
  get-fold k (x ∷ xs) m =
      get-fold k xs (append_to m x)
      ∙ (ap (λ l. l ++ map val (keep (λ y. key y == k) xs)) (get-append_to k m x)
          ∙ elim (Bool-cases (key x == k)) [
            | inl here ↦
                rw here (append_assoc (get k m) (val x ∷ []) (map val (keep (λ y. key y == k) xs)))
            | inr other ↦ rw other refl
          ])

  -- What was appended under a name, in the order of the list.
  pub get-group : (k : Text) (xs : List A) → get k (group xs) ≡ map val (keep (λ x. key x == k) xs)
  unfolding group lookup
  get-group k xs = get-fold k xs []

  has-fold :
      (k : Text) (xs : List A) (m : List (Text × List V))
      → has k (foldl append_to m xs) ≡ (has k m || contains k (map key xs))
  unfolding append_to
  has-fold k [] m = ground arith
  has-fold k (x ∷ xs) m = ground (
    arith,
    text_beq_iff k (key x),
    text_beq_iff (key x) k,
    has-fold k xs (append_to m x),
    has-insert (key x) k (get (key x) m ++ val x ∷ []) m,
  )

  pub has-group : (k : Text) (xs : List A) → has k (group xs) ≡ contains k (map key xs)
  unfolding group has lookup
  has-group k xs = has-fold k xs []
