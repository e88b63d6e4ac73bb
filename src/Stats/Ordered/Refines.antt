-- ===== src/Stats/Ordered/Refines.antt =====
-- An `OrderedMap` implements an association list in order of insertion.
use code_iq.Base.{◌≡◌, refl, sym, ap, false, List, [], ◌∷◌, ◌++◌, arith, if◌then◌else◌}
use code_iq.Base.Text.{Text, text_eq, text_beq_iff}
use code_iq.Base.Assoc.{keys, lookup, insert, has}
use code_iq.Base.Assoc.Distinct.{IsDistinct, insert-IsDistinct}
use code_iq.Stats.Ordered.{OrderedMap, new_ordered, put, put_all, ordered, entries_from, entries_of}

module _ {V : Type 0} where
  -- The two fields agree: they are the keys of one association list and the list itself.
  pub record Implements (m : OrderedMap V) (l : List (Text × V)) : Type 0 where
    pub keys_eq : m.keys ≡ keys l
    pub values_eq : m.values ≡ l
    pub distinct : IsDistinct l

  keys-insert :
      (k : Text) (v : V) (l : List (Text × V))
      → keys (insert k v l) ≡ (if has k l then keys l else keys l ++ k ∷ [])
  unfolding insert has lookup
  keys-insert k v [] = refl
  keys-insert k v ((j, w) ∷ l) = ground (arith, keys-insert k v l)

  -- `Put` writes the entry in place, or at the end where the key is new.
  pub put-Implements :
      (k : Text) (v : V) (m : OrderedMap V) (l : List (Text × V))
      → Implements m l
      → Implements (put k v m) (insert k v l)
  unfolding put
  put-Implements k v m l h = record {
    keys_eq = rw (h.values_eq, h.keys_eq) (sym (keys-insert k v l));
    values_eq = ap (insert k v) h.values_eq;
    distinct = insert-IsDistinct k v l h.distinct;
  }

  -- The abstract map: the entries inserted one by one.
  abbrev pub insert_all : List (Text × V) → List (Text × V) → List (Text × V)
  insert_all [] l = l
  insert_all ((k, v) ∷ entries) l = insert_all entries (insert k v l)

  put_all-Implements :
      (entries : List (Text × V)) (m : OrderedMap V) (l : List (Text × V))
      → Implements m l
      → Implements (put_all entries m) (insert_all entries l)
  unfolding put_all
  put_all-Implements [] m l h = h
  put_all-Implements ((k, v) ∷ entries) m l h =
      put_all-Implements entries (put k v m) (insert k v l) (put-Implements k v m l h)

  entries_from-distinct :
      (j : Text) (w : V) (l r : List (Text × V))
      → has j l ≡ false
      → entries_from (keys l) ((j, w) ∷ r) ≡ entries_from (keys l) r
  unfolding has lookup
  entries_from-distinct j w [] r h = refl
  entries_from-distinct j w ((k, v) ∷ l) r h =
      ground (arith, text_beq_iff j k, text_beq_iff k j, entries_from-distinct j w l r)

  entries_from-keys : (l : List (Text × V)) → IsDistinct l → entries_from (keys l) l ≡ l
  unfolding has lookup
  entries_from-keys [] d = refl
  entries_from-keys ((k, v) ∷ l) d =
      ground (arith, text_beq_iff k k, entries_from-distinct k v l l d.0, entries_from-keys l d.1)

  entries_of-Implements :
      (m : OrderedMap V) (l : List (Text × V)) → Implements m l → entries_of m ≡ l
  entries_of-Implements m l h = rw (h.keys_eq, h.values_eq) (entries_from-keys l h.distinct)

  -- Any sequence of `Put`s on an empty map reads, in the order in which it is written out, as
  -- the association list in which each key keeps the place of its first entry and the value of
  -- its last.
  pub ordered_refines :
      (entries : List (Text × V)) → entries_of (ordered entries) ≡ insert_all entries []
  ordered_refines entries = entries_of-Implements (ordered entries) (insert_all entries []) (
      put_all-Implements entries new_ordered []
        (record { keys_eq = refl; values_eq = refl; distinct = tt }))
