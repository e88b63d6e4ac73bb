-- ===== src/Tests/Cycles.antt =====
-- Cycles of services.
use mathlib.Core.List.{Nodup}
use code_iq.Base.{◌≡◌, ◌↔◌, refl, sym, ◌∙◌, arith, some, List, [], ◌∷◌, ◌++◌, map, All}
use code_iq.Base.Text.{Text, lit, text_beq, text_lt}
use code_iq.Base.Assoc.{lookup, insert}
use code_iq.Base.Groups.{distinct_from}
use code_iq.Base.Sort.{sort_by}
use code_iq.Topology.Connections.{Connection}
use code_iq.Topology.Cycles.{
  cycle_key, normalize_cycle, rotate_from, least_from, Visit, find_circular, dfs_find_cycles,
  start_services, build_targets, add_target, children, each, report, add_cycle, join,
}
use code_iq.Topology.Cycles.Walks.{IsWalk, IsCycle}
use code_iq.Topology.Cycles.Search.Returns.{Returns, dfs_find_cycles-Returns}
use code_iq.Topology.Cycles.Edges.{leads, contains-children, leads-start_services}
use code_iq.Topology.Cycles.Found.{find_circular_lem}
use code_iq.Tests.Samples.{shop, connection}

-- The database calls back.
abbrev ring : List Connection
ring = connection (lit "db") (lit "web") (lit "calls") ∷ shop

turned :
    normalize_cycle (lit "web" ∷ lit "api" ∷ lit "db" ∷ lit "web" ∷ [])
    ≡ lit "api" ∷ lit "db" ∷ lit "web" ∷ lit "api" ∷ []
unfolding normalize_cycle rotate_from least_from text_lt
turned = refl

shop_is_acyclic : find_circular shop ≡ some []
unfolding find_circular dfs_find_cycles start_services build_targets add_target children each report
    add_cycle join normalize_cycle rotate_from least_from text_lt text_beq lookup insert
    distinct_from sort_by
shop_is_acyclic = refl

two_rings :
    find_circular ring
    ≡ some (
        (lit "api" ∷ lit "db" ∷ lit "web" ∷ lit "api" ∷ [])
        ∷ (lit "auth" ∷ lit "db" ∷ lit "web" ∷ lit "auth" ∷ [])
        ∷ [])
unfolding find_circular dfs_find_cycles start_services build_targets add_target children each report
    add_cycle join normalize_cycle rotate_from least_from text_lt text_beq lookup insert
    distinct_from sort_by
two_rings = refl

find_circular_lem_example :
    (cycles : List (List Text)) × (find_circular ring ≡ some cycles)
    × All (IsCycle (leads ring)) cycles
    × Nodup (map cycle_key cycles)
    × ((cycles ≡ []) ↔ ((s : Text) (ts : List Text) → ¬ IsWalk (leads ring) ((s ∷ ts) ++ s ∷ [])))
find_circular_lem_example = find_circular_lem ring

abbrev nothing_found : Visit
nothing_found = record { in_stack = []; cycles = []; seen = []; visited = [] }

dfs_find_cycles-Returns_example :
    Returns
      (lit "web")
      nothing_found
      (dfs_find_cycles (build_targets ring) 5 [] (lit "web") nothing_found)
unfolding start_services build_targets add_target text_lt text_beq lookup insert distinct_from
    sort_by
dfs_find_cycles-Returns_example =
    dfs_find_cycles-Returns (build_targets ring) (start_services (build_targets ring) ring)
      (λ s t e. (leads-start_services ring s t (sym (contains-children ring s t) ∙ e)).1) 5 []
      (lit "web") nothing_found (omega arith) refl
