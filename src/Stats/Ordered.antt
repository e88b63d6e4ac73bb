-- ===== src/Stats/Ordered.antt =====
-- `OrderedMap` of internal/query/stats.go: a map with the order in which its keys came in.
pub mod Refines
use code_iq.Base.{ℕ, Bool, true, false, Option, none, some, List, [], ◌∷◌, ◌++◌, if◌then◌else◌}
use code_iq.Base.Text.{Text, text_eq}
use code_iq.Base.Assoc.{lookup, insert, has}

pub record OrderedMap (V : Type 0) : Type 0 where
  pub keys : List Text
  pub values : List (Text × V)

module _ {V : Type 0} where
  abbrev pub new_ordered : OrderedMap V
  new_ordered = record { keys = []; values = [] }

  -- `Put`
  unfoldable pub put : Text → V → OrderedMap V → OrderedMap V
  put k v m = record {
    keys = if has k m.values then m.keys else m.keys ++ k ∷ [];
    values = insert k v m.values;
  }

  -- Several calls, in order.
  unfoldable pub put_all : List (Text × V) → OrderedMap V → OrderedMap V
  unfolding put
  put_all [] m = m
  put_all ((k, v) ∷ entries) m = put_all entries (put k v m)

  abbrev pub ordered : List (Text × V) → OrderedMap V
  ordered entries = put_all entries new_ordered

  -- The pairs that `MarshalJSON` writes, in its order: each key with its value.
  abbrev pub entries_from : List Text → List (Text × V) → List (Text × V)
  entries_from [] m = []
  entries_from (k ∷ ks) m = elim (lookup k m) [
    | none ↦ entries_from ks m
    | some v ↦ (k, v) ∷ entries_from ks m
  ]

  abbrev pub entries_of : OrderedMap V → List (Text × V)
  entries_of m = entries_from m.keys m.values
