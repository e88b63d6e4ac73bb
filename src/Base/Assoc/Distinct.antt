-- ===== src/Base/Assoc/Distinct.antt =====
-- A map has one entry for a key, and `insert` keeps it so.
use mathlib.Core.Path.{◌≡◌, refl, sym, subst, ap}
use mathlib.Core.Bool.{true, false, So-prop}
use mathlib.Core.List.{
  List, [], ◌∷◌, map, Mem, Pairwise, eq-or-mem_of_mem-cons, not-mem-nil, mem-cons_self,
  mem-cons_of_mem,
}
use mathlib.Core.Logic.{◌≢◌, ◌↔◌, inl, inr}
use mathlib.Core.Logic.Or
use mathlib.Core.Option
use mathlib.Core.Option.{some}
use native.Mathlib.Omega.{arith}
use code_iq.Base.Tests.{Eq, ◌==◌, Bool-cases}
use code_iq.Base.Lists.{All, contains}
use code_iq.Base.Assoc.{keys, values, lookup, insert, has, has-insert}

module _ {K V : Type 0} ⦃e : Eq K⦄ where
  abbrev pub IsDistinct : List (K × V) → Type 0
  IsDistinct [] = Unit
  IsDistinct ((k, v) ∷ m) = (has k m ≡ false) × IsDistinct m

  pub insert-IsDistinct :
      (k : K) (v : V) (m : List (K × V)) → IsDistinct m → IsDistinct (insert k v m)
  unfolding insert has lookup
  insert-IsDistinct k v [] d = (refl, tt)
  insert-IsDistinct k v ((j, w) ∷ m) d =
      ground (arith, e.beq_iff j k, e.beq_iff k j, has-insert k j v m, insert-IsDistinct k v m d.1)

  -- Each entry satisfies `P`.
  pub insert-All :
      (P : K → V → Type 0) (k : K) (v : V) (m : List (K × V))
      → P k v
      → All (λ x. P x.0 x.1) m
      → All (λ x. P x.0 x.1) (insert k v m)
  unfolding insert
  insert-All P k v [] p h = (p, tt)
  insert-All P k v ((j, w) ∷ m) p h = elim (Bool-cases (j == k)) [
    | inl same ↦ rw same (subst (λ i. P i v) (sym ((e.beq_iff j k).0 same)) p, h.1)
    | inr other ↦ rw other (h.0, insert-All P k v m p h.1)
  ]

module _ {V I : Type 0} ⦃e : Eq I⦄ (key : V → I) where
  -- Each entry stands under its value's own key.
  abbrev pub IsKeyed : List (I × V) → Type 0
  IsKeyed = All (λ x. key x.1 ≡ x.0)

  mem_values : (v : V) (m : List (I × V)) → IsKeyed m → Mem v (values m) → has (key v) m ≡ true
  unfolding has lookup
  mem_values v [] h m = absurd (not-mem-nil m)
  mem_values v ((i, w) ∷ r) h m =
      Or.elim (So-prop _) (eq-or-mem_of_mem-cons m)
        (λ same. ground (arith, e.beq_iff i (key v), ap key same))
        (λ later. ground (arith, mem_values v r h.1 later))

  -- The values of a map that is keyed by the values' own keys have distinct keys.
  pub values-distinct :
      (m : List (I × V)) → IsDistinct m → IsKeyed m → Pairwise (λ a b. key a ≢ key b) (values m)
  values-distinct [] d h = Pairwise.nil
  values-distinct ((i, v) ∷ m) d h =
      Pairwise.cons (λ w in_m same. ground (arith, mem_values w m h.1 in_m, d.0, h.0))
        (values-distinct m d.1 h.1)

  pub has→mem_values :
      (i : I) (m : List (I × V)) → IsKeyed m → has i m ≡ true → Mem i (map key (values m))
  unfolding has lookup
  has→mem_values i [] h e = cc
  has→mem_values i ((j, w) ∷ m) h p = elim (Bool-cases (j == i)) [
    | inl same ↦ rw (← (e.beq_iff j i).0 same, ← h.0) mem-cons_self
    | inr other ↦ mem-cons_of_mem _ (has→mem_values i m h.1 (ground arith))
  ]

  pub lookup_keyed :
      (i : I) (v : V) (m : List (I × V)) → IsKeyed m → lookup i m ≡ some v → key v ≡ i
  unfolding lookup
  lookup_keyed i v [] h p = cc
  lookup_keyed i v ((j, w) ∷ m) h p = ground (arith, e.beq_iff j i, lookup_keyed i v m h.1, h.0)

  mem→lookup :
      (set : IsSet V) (v : V) (m : List (I × V))
      → IsDistinct m
      → IsKeyed m
      → Mem v (values m)
      → lookup (key v) m ≡ some v
  unfolding lookup
  mem→lookup set v [] d h m = absurd (not-mem-nil m)
  mem→lookup set v ((i, w) ∷ r) d h m =
      Or.elim (Option.is_set set _ _) (eq-or-mem_of_mem-cons m)
        (λ same. ground (arith, e.beq_iff i (key v), ap key same))
        (λ later.
          ground (
            arith,
            e.beq_iff i (key v),
            mem_values v r h.1 later,
            mem→lookup set v r d.1 h.1 later,
          ))

  lookup→mem : (i : I) (v : V) (m : List (I × V)) → lookup i m ≡ some v → Mem v (values m)
  unfolding lookup
  lookup→mem i v [] p = cc
  lookup→mem i v ((j, w) ∷ m) p = elim (Bool-cases (j == i)) [
    | inl same ↦ let eq : w ≡ v = ground arith in rw eq mem-cons_self
    | inr other ↦ mem-cons_of_mem w (lookup→mem i v m (rw other at p))
  ]

  -- A value stands in the map exactly if it is found under its own key.
  pub mem-values_iff :
      (set : IsSet V) (v : V) (m : List (I × V))
      → IsDistinct m
      → IsKeyed m
      → Mem v (values m) ↔ (lookup (key v) m ≡ some v)
  mem-values_iff set v m d h = (mem→lookup set v m d h, lookup→mem (key v) v m)

module _ {K V : Type 0} ⦃e : Eq K⦄ where
  pub contains-keys : (k : K) (m : List (K × V)) → contains k (keys m) ≡ has k m
  unfolding has lookup
  contains-keys k [] = refl
  contains-keys k ((j, v) ∷ m) = ground (arith, e.beq_iff j k, e.beq_iff k j, contains-keys k m)
