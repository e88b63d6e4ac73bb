-- ===== src/Base/Assoc/Permuted.antt =====
-- Distinct keys are a property of the entries alone, so a permutation keeps them.
use mathlib.Core.Path.{◌≡◌, refl, ap}
use mathlib.Core.Bool.{true, false, So-prop}
use mathlib.Core.Logic.{◌≢◌}
use mathlib.Core.Logic.Or
use mathlib.Core.List.{
  List, [], ◌∷◌, Mem, Perm, Pairwise, mem-cons_self, mem-cons_of_mem, eq-or-mem_of_mem-cons,
  not-mem-nil,
}
use native.Mathlib.Omega.{arith}
use code_iq.Base.Text.{Text, text_eq, text_beq_iff}
use code_iq.Base.Assoc.{lookup, has}
use code_iq.Base.Assoc.Distinct.{IsDistinct}
use code_iq.Base.Sort.{HasDistinctKeys, HasDistinctKeys-perm}

module _ {V : Type 0} where
  has_of_mem : (x : Text × V) (m : List (Text × V)) → Mem x m → has x.0 m ≡ true
  unfolding has lookup
  has_of_mem x [] m = absurd (not-mem-nil m)
  has_of_mem x ((k, v) ∷ r) m =
      Or.elim (So-prop _) (eq-or-mem_of_mem-cons m)
        (λ same. ground (arith, text_beq_iff k x.0, ap (λ (y : Text × V). y.0) same))
        (λ later. ground (arith, has_of_mem x r later))

  apart-has :
      (k : Text) (m : List (Text × V)) → ((y : Text × V) → Mem y m → k ≢ y.0) → has k m ≡ false
  unfolding has lookup
  apart-has k [] h = refl
  apart-has k ((j, v) ∷ r) h = ground (
    arith,
    text_beq_iff j k,
    h (j, v) mem-cons_self,
    apart-has k r (λ y m. h y (mem-cons_of_mem (j, v) m)),
  )

  pub HasDistinctKeys-of_IsDistinct :
      (m : List (Text × V)) → IsDistinct m → HasDistinctKeys (λ x. x.0) m
  HasDistinctKeys-of_IsDistinct [] d = Pairwise.nil
  HasDistinctKeys-of_IsDistinct ((k, v) ∷ m) d =
      Pairwise.cons (λ y inside same. cc (has_of_mem y m inside, d.0, same))
        (HasDistinctKeys-of_IsDistinct m d.1)

  pub IsDistinct-of_keys : (m : List (Text × V)) → HasDistinctKeys (λ x. x.0) m → IsDistinct m
  IsDistinct-of_keys [] d = tt
  IsDistinct-of_keys ((k, v) ∷ m) (Pairwise.cons h d) = (apart-has k m h, IsDistinct-of_keys m d)

  pub IsDistinct-perm : {l r : List (Text × V)} → Perm l r → IsDistinct l → IsDistinct r
  IsDistinct-perm {l} {r} p d =
      IsDistinct-of_keys r (HasDistinctKeys-perm (λ x. x.0) p (HasDistinctKeys-of_IsDistinct l d))
