-- ===== src/Topology/Cycles.antt =====
-- `FindCircular`: depth-first search for cycles of services.
pub mod Walks
pub mod Rotate
pub mod Edges
pub mod Each
pub mod Search
pub mod Found
use Prim.Native.Nat.{◌%◌}
use mathlib.Core.List.{foldl}
use code_iq.Base.{
  ℕ, zero, suc, ◌+◌, Bool, true, false, not, Option, none, some, List, [], ◌∷◌, ◌++◌, ◌==◌, map,
  keep, contains, length, if◌then◌else◌,
}
use code_iq.Base.Text.{Text, text_eq, text_lt, lit}
use code_iq.Base.Assoc.{keys, lookup, insert}
use code_iq.Base.Sort.{sort_by}
use code_iq.Base.Groups.{distinct}
use code_iq.Topology.Connections.{Connection}

-- `map[string]map[string]struct{}`; a Go set is a list here, and a missing row reads like an
-- empty one.
abbrev pub TargetSets : Type 0
TargetSets = List (Text × List Text)

abbrev pub targets : TargetSets → Text → List Text
targets adj s = elim (lookup s adj) [ none ↦ [] | some ts ↦ ts ]

unfoldable pub add_target : TargetSets → Connection → TargetSets
add_target adj c =
    let ts = targets adj c.source in
    insert c.source (if contains c.target ts then ts else c.target ∷ ts) adj

unfoldable pub build_targets : List Connection → TargetSets
unfolding add_target
build_targets = foldl add_target []

unfoldable pub children : TargetSets → Text → List Text
children adj s = sort_by (λ t. t) (targets adj s)

unfoldable pub start_services : TargetSets → List Connection → List Text
start_services adj conns = sort_by (λ t. t) (distinct (keys adj ++ map (λ c. c.target) conns))

-- The index of the least text: `i` is the next index, `min` that of the least one so far.
unfoldable pub least_from : ℕ → ℕ → Text → List Text → ℕ
least_from i min best [] = min
least_from i min best (t ∷ ts) = elim (text_lt t best) [
  | true ↦ least_from (suc i) i t ts
  | false ↦ least_from (suc i) min best ts
]

-- `body[i]`, within the bounds.
abbrev pub at : List Text → ℕ → Text
at [] i = []
at (t ∷ ts) zero = t
at (t ∷ ts) (suc i) = at ts i

-- The loop over `i`, with so many rounds left.
unfoldable pub rotate_from : ℕ → ℕ → List Text → ℕ → List Text
rotate_from zero i body min = []
rotate_from (suc n) i body min = at body ((min + i) % length body) ∷ rotate_from n (suc i) body min

abbrev pub drop_last : List Text → List Text
drop_last [] = []
drop_last (t ∷ []) = []
drop_last (t ∷ u ∷ ts) = t ∷ drop_last (u ∷ ts)

abbrev pub close : List Text → List Text
close rot = rot ++ at rot 0 ∷ []

unfoldable pub normalize_cycle : List Text → List Text
unfolding rotate_from least_from
normalize_cycle [] = []
normalize_cycle (t ∷ []) = t ∷ []
normalize_cycle (t ∷ u ∷ ts) =
    let rest = drop_last (u ∷ ts) in
    close (rotate_from (length (t ∷ rest)) 0 (t ∷ rest) (least_from 1 0 t rest))

-- The maps that one search shares: the services on the stack, the cycles with their keys, and
-- the services that are done.
pub record Visit : Type 0 where
  pub in_stack : List Text
  pub cycles : List (List Text)
  pub seen : List Text
  pub visited : List Text

unfoldable pub join : Text → List Text → Text
join sep [] = []
join sep (t ∷ []) = t
join sep (t ∷ u ∷ ts) = t ++ sep ++ join sep (u ∷ ts)

abbrev pub cycle_key : List Text → Text
cycle_key = join (lit "->")

-- The stack from the first occurrence of a service.
abbrev pub from_first : Text → List Text → List Text
from_first node [] = []
from_first node (t ∷ ts) = if t == node then t ∷ ts else from_first node ts

-- A cycle is recorded under its key, once.
unfoldable pub add_cycle : List Text → Visit → Visit
unfolding join
add_cycle cycle s =
    if contains (cycle_key cycle) s.seen
    then s
    else record s { seen = s.seen ++ cycle_key cycle ∷ []; cycles = s.cycles ++ cycle ∷ [] }

-- A back edge closes the part of the stack from the first occurrence of the service.
unfoldable pub report : List Text → Text → Visit → Visit
unfolding normalize_cycle add_cycle
report stack node s = elim (from_first node stack) [
  | [] ↦ s
  | t ∷ ts ↦ add_cycle (normalize_cycle ((t ∷ ts) ++ node ∷ [])) s
]

abbrev pub enter : Text → Visit → Visit
enter node s = record s { in_stack = node ∷ s.in_stack }

abbrev pub leave : Text → Visit → Visit
leave node s = record s {
  in_stack = keep (λ t. not (t == node)) s.in_stack;
  visited = node ∷ s.visited;
}

-- A loop whose body can run out of fuel.
unfoldable pub each : {S : Type 0} → (Text → S → Option S) → List Text → S → Option S
each go [] s = some s
each go (t ∷ ts) s = elim (go t s) [ none ↦ none | some r ↦ each go ts r ]

-- `dfsFindCycles`
unfoldable pub dfs_find_cycles : TargetSets → ℕ → List Text → Text → Visit → Option Visit
unfolding children report each
dfs_find_cycles adj zero stack node s = none
dfs_find_cycles adj (suc fuel) stack node s = elim (contains node s.in_stack) [
  | true ↦ some (report stack node s)
  | false ↦ elim (contains node s.visited) [
    | true ↦ some s
    | false ↦
        elim (each (dfs_find_cycles adj fuel (stack ++ node ∷ [])) (children adj node)
          (enter node s)) [ none ↦ none | some t ↦ some (leave node t) ]
  ]
]

-- The search from one service, with an empty stack.
abbrev pub search_from : TargetSets → ℕ → Text → Visit → Option Visit
search_from adj fuel s v = dfs_find_cycles adj fuel [] s (record v { in_stack = [] })

unfoldable pub find_circular : List Connection → Option (List (List Text))
unfolding dfs_find_cycles start_services build_targets each
find_circular conns =
    let adj = build_targets conns in
    let starts = start_services adj conns in
    elim (each (search_from adj (suc (length starts))) starts
      (record { in_stack = []; cycles = []; seen = []; visited = [] })) [
        | none ↦ none
        | some v ↦ some v.cycles
      ]
