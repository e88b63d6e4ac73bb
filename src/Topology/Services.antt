-- ===== src/Topology/Services.antt =====
-- internal/query/topology.go: the services, their degrees, and who depends on whom.
pub mod Duality
pub mod Degrees
pub mod Ranking
use mathlib.Core.List.{foldl}
use code_iq.Base.{
  ℕ, zero, suc, ◌+◌, Bool, true, false, not, ◌||◌, Option, none, some, List, [], ◌∷◌, ◌==◌, map,
  keep, contains, length, ltb, nat_beq, nat_eq, if◌then◌else◌,
}
use code_iq.Base.Text.{Text, text_eq, text_lt, lit}
use code_iq.Base.Assoc.{lookup, insert}
use code_iq.Base.Sort.{sort_by}
use code_iq.Base.Sort.With.{sort_with}
use code_iq.Base.Groups.{distinct}
use code_iq.Base.Counts.{count_at, increment}
use code_iq.Topology.Connections.{Connection}

-- One row of `serviceSummaries`.
pub record Summary : Type 0 where
  pub name : Text
  pub build_tool : Text
  pub endpoint_count : ℕ
  pub entity_count : ℕ

unfoldable pub degrees : (Connection → Text) → List Connection → List (Text × ℕ)
unfolding increment
degrees name_of = foldl (λ m c. increment m (name_of c)) []

abbrev pub out_degrees : List Connection → List (Text × ℕ)
out_degrees = degrees (λ c. c.source)

abbrev pub in_degrees : List Connection → List (Text × ℕ)
in_degrees = degrees (λ c. c.target)

pub record ServiceRow : Type 0 where
  pub summary : Summary
  pub connections_out : ℕ
  pub connections_in : ℕ

pub record TopologyView : Type 0 where
  pub services : List ServiceRow
  pub connections : List Connection
  pub service_count : ℕ
  pub connection_count : ℕ

unfoldable pub get_topology : List Summary → List Connection → TopologyView
unfolding degrees
get_topology summaries conns =
    let out = out_degrees conns in
    let in_ = in_degrees conns in
    let services = sort_by (λ s. s.name) summaries in
    record {
      services =
          map
            (λ s. record {
              summary = s;
              connections_out = count_at out s.name;
              connections_in = count_at in_ s.name;
            })
            services;
      connections = conns;
      service_count = length services;
      connection_count = length conns;
    }

-- What `ServiceDependencies` and `ServiceDependents` report: the services on the other side.
pub record Neighbourhood : Type 0 where
  pub service : Text
  pub others : List Text
  pub connections : List Connection
  pub count : ℕ

unfoldable pub service_dependencies : List Connection → Text → Neighbourhood
service_dependencies conns name =
    let rows = keep (λ c. c.source == name) conns in
    let depends_on = distinct (map (λ c. c.target) rows) in
    record { service = name; others = depends_on; connections = rows; count = length depends_on }

unfoldable pub service_dependents : List Connection → Text → Neighbourhood
service_dependents conns name =
    let rows = keep (λ c. c.target == name) conns in
    let depended_by = distinct (map (λ c. c.source) rows) in
    record { service = name; others = depended_by; connections = rows; count = length depended_by }

pub record Bottleneck : Type 0 where
  pub service : Text
  pub connections_in : ℕ
  pub connections_out : ℕ
  pub total_connections : ℕ

-- By total, the largest first, then by name.
unfoldable pub busier : Bottleneck → Bottleneck → Bool
busier a b =
    if nat_beq a.total_connections b.total_connections
    then text_lt a.service b.service
    else ltb b.total_connections a.total_connections

unfoldable pub bottleneck_rows : List (Text × ℕ) → List (Text × ℕ) → List Summary → List Bottleneck
bottleneck_rows in_ out [] = []
bottleneck_rows in_ out (s ∷ summaries) =
    let i = count_at in_ s.name in
    let o = count_at out s.name in
    let rest = bottleneck_rows in_ out summaries in
    let row : Bottleneck = record {
      service = s.name;
      connections_in = i;
      connections_out = o;
      total_connections = i + o;
    } in
    if nat_beq (i + o) 0 then rest else row ∷ rest

unfoldable pub find_bottlenecks : List Summary → List Connection → List Bottleneck
unfolding bottleneck_rows degrees busier
find_bottlenecks summaries conns =
    sort_with busier (bottleneck_rows (in_degrees conns) (out_degrees conns) summaries)

-- The services that no connection leads to; `ok` of `hasIncoming[name]`.
unfoldable pub find_dead_services : List Summary → List Connection → List Summary
find_dead_services summaries conns =
    let has_incoming = map (λ c. c.target) conns in
    sort_by (λ s. s.name) (keep (λ s. not (contains s.name has_incoming)) summaries)
