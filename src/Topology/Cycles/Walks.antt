-- ===== src/Topology/Cycles/Walks.antt =====
-- Walks and cycles of a relation on services.
use mathlib.Core.List.{Nodup}
use code_iq.Base.{◌≡◌, Bool, true, List, [], ◌∷◌, ◌++◌, All}
use code_iq.Base.Text.{Text}
use code_iq.Base.Sort.{TextLe}

module _ (edge : Text → Text → Bool) where
  -- Each element leads to the next.
  abbrev pub IsWalk : List Text → Type 0
  IsWalk [] = Unit
  IsWalk (t ∷ []) = Unit
  IsWalk (t ∷ u ∷ ts) = (edge t u ≡ true) × IsWalk (u ∷ ts)

  -- A cycle as it is reported: it starts and ends at its least service, and passes no service
  -- twice in between.
  pub record IsCycle (c : List Text) : Type 0 where
    pub first : Text
    pub others : List Text
    pub shape : c ≡ (first ∷ others) ++ first ∷ []
    pub walk : IsWalk ((first ∷ others) ++ first ∷ [])
    pub least : All (TextLe first) others
    pub simple : Nodup (first ∷ others)

  pub IsWalk-suffix : (p q : List Text) → IsWalk (p ++ q) → IsWalk q
  IsWalk-suffix [] q w = w
  IsWalk-suffix (t ∷ []) [] w = tt
  IsWalk-suffix (t ∷ []) (u ∷ q) w = w.1
  IsWalk-suffix (t ∷ u ∷ p) q w = IsWalk-suffix (u ∷ p) q w.1

  pub IsWalk-prefix :
      (p : List Text) (t : Text) (q : List Text) → IsWalk (p ++ t ∷ q) → IsWalk (p ++ t ∷ [])
  IsWalk-prefix [] t q w = tt
  IsWalk-prefix (s ∷ []) t q w = (w.0, tt)
  IsWalk-prefix (s ∷ u ∷ p) t q w = (w.0, IsWalk-prefix (u ∷ p) t q w.1)

  pub IsWalk-glue :
      (p : List Text) (t : Text) (q : List Text)
      → IsWalk (p ++ t ∷ [])
      → IsWalk (t ∷ q)
      → IsWalk (p ++ t ∷ q)
  IsWalk-glue [] t q v w = w
  IsWalk-glue (s ∷ []) t q v w = (v.0, w)
  IsWalk-glue (s ∷ u ∷ p) t q v w = (v.0, IsWalk-glue (u ∷ p) t q v.1 w)
