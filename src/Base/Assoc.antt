-- ===== src/Base/Assoc.antt =====
-- Go maps as association lists: one entry for a key, the order that of the first insertion.
pub mod Distinct
pub mod Permuted
use Prim.Native.Nat.{suc}
use mathlib.Core.Path.{◌≡◌, refl}
use mathlib.Core.Bool.{Bool, true, false, ◌||◌}
use mathlib.Core.Option.{Option, none, some}
use mathlib.Core.List.{List, [], ◌∷◌, map}
use native.Mathlib.Omega.{arith}
use code_iq.Base.Tests.{Eq, ◌==◌, if◌then◌else◌}
use code_iq.Base.Lists.{length}

module _ {K V : Type 0} where
  abbrev pub keys : List (K × V) → List K
  keys = map (λ e. e.0)

  abbrev pub values : List (K × V) → List V
  values = map (λ e. e.1)

module _ {K V : Type 0} ⦃e : Eq K⦄ where
  -- `v, ok := m[k]`
  unfoldable pub lookup : K → List (K × V) → Option V
  lookup k [] = none
  lookup k ((i, w) ∷ m) = if i == k then some w else lookup k m

  -- `m[k] = v`
  unfoldable pub insert : K → V → List (K × V) → List (K × V)
  insert k v [] = (k, v) ∷ []
  insert k v ((i, w) ∷ m) = if i == k then (i, v) ∷ m else (i, w) ∷ insert k v m

  -- `_, ok := m[k]`
  unfoldable pub has : K → List (K × V) → Bool
  unfolding lookup
  has k m = elim (lookup k m) [ none ↦ false | some v ↦ true ]

  pub lookup-insert :
      (k l : K) (v : V) (m : List (K × V))
      → (lookup l (insert k v m)) ≡ (if k == l then some v else lookup l m)
  unfolding insert lookup
  lookup-insert k l v [] = refl
  lookup-insert k l v ((i, w) ∷ m) =
      ground (arith, lookup-insert k l v m, e.beq_iff i k, e.beq_iff i l, e.beq_iff k l)

  pub length-insert :
      (k : K) (v : V) (m : List (K × V))
      → length (insert k v m) ≡ (if has k m then length m else suc (length m))
  unfolding insert has
  length-insert k v [] = refl
  length-insert k v ((i, w) ∷ m) = ground (arith, length-insert k v m)

  pub has-insert : (k j : K) (v : V) (m : List (K × V)) → has j (insert k v m) ≡ (k == j || has j m)
  unfolding has
  has-insert k j v m = ground (arith, lookup-insert k j v m)

  -- `for k, v := range d { if _, ok := m[k]; !ok { m[k] = v } }`
  unfoldable pub fill : List (K × V) → List (K × V) → List (K × V)
  fill m [] = m
  fill m ((k, v) ∷ d) = fill (if has k m then m else insert k v m) d

  -- What `m` has stays, and what only `d` has comes in.
  pub lookup-fill :
      (k : K) (m d : List (K × V))
      → lookup k (fill m d) ≡ (if has k m then lookup k m else lookup k d)
  unfolding fill has lookup
  lookup-fill k m [] = ground arith
  lookup-fill k m ((j, v) ∷ d) = ground (
    arith,
    e.beq_iff j k,
    lookup-fill k (if has j m then m else insert j v m) d,
    lookup-insert j k v m,
  )
