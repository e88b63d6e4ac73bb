-- ===== src/Topology/Cycles/Search.antt =====
-- What holds between the steps of `dfsFindCycles`.
pub mod Report
pub mod Room
pub mod Depth
pub mod Returns
use mathlib.Core.List.{Nodup}
use code_iq.Base.{◌≡◌, Bool, true, List, [], ◌∷◌, map, contains, All}
use code_iq.Base.Text.{Text, text_eq}
use code_iq.Topology.Cycles.{TargetSets, children, Visit, cycle_key}
use code_iq.Topology.Cycles.Walks.{IsCycle}

module _ (adj : TargetSets) where
  abbrev pub edge : Text → Text → Bool
  edge s t = contains t (children adj s)

  -- The services that are done, the last one first: each leads only to services done before it.
  abbrev pub IsFinished : List Text → Type 0
  IsFinished [] = Unit
  IsFinished (u ∷ us) = ((v : Text) → edge u v ≡ true → contains v us ≡ true) × IsFinished us

  pub record Inv (stack : List Text) (s : Visit) : Type 0 where
    pub agrees : (t : Text) → contains t stack ≡ contains t s.in_stack
    pub simple : Nodup stack
    pub cyclic : All (IsCycle edge) s.cycles
    pub keyed : s.seen ≡ map cycle_key s.cycles
    pub once : Nodup s.seen
    pub finished : s.cycles ≡ [] → IsFinished s.visited

-- What a call leaves as it was, or adds to.
pub record Grows (s t : Visit) : Type 0 where
  pub same_stack : t.in_stack ≡ s.in_stack
  pub more_visited : (c : Text) → contains c s.visited ≡ true → contains c t.visited ≡ true
  pub more_cycles : t.cycles ≡ [] → s.cycles ≡ []

-- A service is done, unless some cycle has been found.
abbrev pub IsDone : Text → Visit → Type 0
IsDone c t = t.cycles ≡ [] → contains c t.visited ≡ true
