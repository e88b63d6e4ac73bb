-- ===== src/Topology/Path.antt =====
-- `FindPath`: breadth-first search over the connections between services.
pub mod Adjacency
pub mod Walks
pub mod Round
pub mod Loop
pub mod Progress
pub mod Correct
pub mod Route
use mathlib.Core.List.{foldl}
use code_iq.Base.{
  ℕ, zero, suc, ◌+◌, Bool, true, false, Option, none, some, List, [], ◌∷◌, ◌++◌, ◌==◌, contains,
  length, if◌then◌else◌,
}
use code_iq.Base.Text.{Text, text_eq, lit}
use code_iq.Base.Assoc.{keys, lookup, insert, has}
use code_iq.Base.Sort.{sort_by}
use code_iq.Topology.Connections.{Connection}

-- `map[string]map[string]connection`; a missing row reads like an empty one.
abbrev pub Adjacency : Type 0
Adjacency = List (Text × List (Text × Connection))

abbrev pub row : Adjacency → Text → List (Text × Connection)
row adj s = elim (lookup s adj) [ none ↦ [] | some r ↦ r ]

-- The first connection from a service to another stays.
unfoldable pub add_connection : Adjacency → Connection → Adjacency
add_connection adj c =
    let r = row adj c.source in
    insert c.source (if has c.target r then r else insert c.target c r) adj

unfoldable pub build_adjacency : List Connection → Adjacency
unfolding add_connection
build_adjacency = foldl add_connection []

-- The services that a service connects to, ascending.
unfoldable pub neighbours : Adjacency → Text → List Text
neighbours adj s = sort_by (λ t. t) (keys (row adj s))

-- The last service of a path; a path is never empty.
abbrev pub last : List Text → Text
last [] = []
last (s ∷ []) = s
last (s ∷ t ∷ path) = last (t ∷ path)

-- The loop over the neighbours: the queue and the visited set.
unfoldable pub enqueue :
    List Text → List Text → List (List Text) → List Text → List (List Text) × List Text
enqueue path [] queue visited = (queue, visited)
enqueue path (n ∷ ns) queue visited =
    let old = enqueue path ns queue visited in
    let new = enqueue path ns (queue ++ (path ++ n ∷ []) ∷ []) (n ∷ visited) in
    if contains n visited then old else new

pub data Search : Type 0 where
  found : List Text → Search
  absent out_of_fuel : Search

module _ (adj : Adjacency) (target : Text) where
  unfoldable pub search_path : ℕ → List (List Text) → List Text → Search
  unfolding neighbours enqueue
  search_path fuel [] visited = absent
  search_path zero (path ∷ queue) visited = out_of_fuel
  search_path (suc fuel) (path ∷ queue) visited =
      let (queue', visited') = enqueue path (neighbours adj (last path)) queue visited in
      let rest = search_path fuel queue' visited' in
      if last path == target then found path else rest

pub record Hop : Type 0 where
  pub from : Text
  pub to : Text
  pub kind : Text

-- `adj[from][to].kind`, or "unknown" where that is empty.
abbrev pub hop_kind : Adjacency → Text → Text → Text
hop_kind adj s t = elim (lookup t (row adj s)) [
  | none ↦ lit "unknown"
  | some c ↦ elim c.kind [ [] ↦ lit "unknown" | b ∷ bs ↦ b ∷ bs ]
]

unfoldable pub hops : Adjacency → List Text → List Hop
hops adj [] = []
hops adj (s ∷ []) = []
hops adj (s ∷ t ∷ path) = record { from = s; to = t; kind = hop_kind adj s t } ∷ hops adj (t ∷ path)

pub data PathResult : Type 0 where
  path : List Hop → PathResult
  no_path no_fuel : PathResult

abbrev pub path_result : Adjacency → Search → PathResult
path_result adj (found p) = path (hops adj p)
path_result adj absent = no_path
path_result adj out_of_fuel = no_fuel

-- Each service is queued once, so as many rounds as connections, and one for the source.
unfoldable pub find_path : List Connection → Text → Text → PathResult
unfolding build_adjacency search_path hops
find_path conns source target =
    let adj = build_adjacency conns in
    path_result adj (search_path adj target (suc (length conns)) ((source ∷ []) ∷ []) (source ∷ []))
