-- ===== src/Tests/Services.antt =====
-- The service topology of a small shop.
use mathlib.Core.List.{Mem, Nodup, Perm}
use code_iq.Base.{
  ◌≡◌, refl, ◌↔◌, true, not, List, [], ◌∷◌, ◌++◌, map, keep, contains, sum, nat_beq, All,
}
use code_iq.Base.Text.{Text, text_eq, text_beq, text_lt, lit}
use code_iq.Base.Assoc.{lookup, insert, has}
use code_iq.Base.Sort.{sort_by, HasDistinctKeys}
use code_iq.Base.Sort.With.{IsOrdered}
use code_iq.Topology.Connections.{Row, connection_of, connection_key, cross_service_connections}
use code_iq.Topology.Connections.Dedup.{
  row_of, cross_service_connections_lem, cross_service_connections-shared_key,
}
use code_iq.Topology.Path.{
  find_path, path, build_adjacency, add_connection, search_path, neighbours, enqueue, hops, no_path,
}
use code_iq.Topology.Path.Route.{IsAnswer, find_path-IsAnswer}
use code_iq.Topology.Services.{
  busier, service_dependents, find_dead_services, find_bottlenecks, get_topology,
}
use code_iq.Topology.Services.Duality.{find_dead_services_iff}
use code_iq.Topology.Services.Degrees.{get_topology-handshake}
use code_iq.Topology.Services.Ranking.{bottleneck_of, find_bottlenecks_lem}
use code_iq.Tests.Samples.{shop, services, summary, all_differ-HasDistinctKeys}

-- Two hops; the second connection has no kind.
web_to_db :
    find_path shop (lit "web") (lit "db")
    ≡ path (
        record { from = lit "web"; to = lit "api"; kind = lit "calls" }
        ∷ record { from = lit "api"; to = lit "db"; kind = lit "unknown" }
        ∷ [])
unfolding find_path build_adjacency add_connection search_path neighbours enqueue hops lookup insert
    has text_beq sort_by text_lt
web_to_db = refl

db_to_web : find_path shop (lit "db") (lit "web") ≡ no_path
unfolding find_path build_adjacency add_connection search_path neighbours enqueue hops lookup insert
    has text_beq sort_by text_lt
db_to_web = refl

find_path-IsAnswer_example :
    IsAnswer shop (lit "web") (lit "db") (find_path shop (lit "web") (lit "db"))
find_path-IsAnswer_example = find_path-IsAnswer shop (lit "web") (lit "db")

find_dead_services_iff_example :
    Mem (summary (lit "web")) (find_dead_services services shop)
    ↔ (Mem (summary (lit "web")) services × ((service_dependents shop (lit "web")).count ≡ 0))
find_dead_services_iff_example = find_dead_services_iff services shop (summary (lit "web"))

find_bottlenecks_lem_example :
    Perm (find_bottlenecks services shop) (
      map
        (bottleneck_of shop)
        (keep (λ s. not (nat_beq (bottleneck_of shop s).total_connections 0)) services))
    × IsOrdered busier (find_bottlenecks services shop)
find_bottlenecks_lem_example = find_bottlenecks_lem services shop

ends_listed :
    All (λ c. contains c.source (map (λ s. s.name) services) ≡ true) shop
    × All (λ c. contains c.target (map (λ s. s.name) services) ≡ true) shop
unfolding text_beq
ends_listed = assumption refl

names_differ : HasDistinctKeys (λ s. s.name) services
unfolding text_beq
names_differ = all_differ-HasDistinctKeys (λ s. s.name) services refl

get_topology-handshake_example :
    (sum (map (λ r. r.connections_out) (get_topology services shop).services)
      ≡ (get_topology services shop).connection_count)
    × (sum (map (λ r. r.connections_in) (get_topology services shop).services)
        ≡ (get_topology services shop).connection_count)
get_topology-handshake_example =
    get_topology-handshake services shop names_differ ends_listed.0 ends_listed.1

abbrev rows : List Row
rows =
    row_of (lit "web") (lit "api") (lit "CALLS")
    ∷ row_of (lit "web") (lit "api") (lit "calls")
    ∷ row_of (lit "api") (lit "db") (lit "QUERIES")
    ∷ []

cross_service_connections_lem_example :
    Nodup (map connection_key (cross_service_connections rows))
    × ((k : Text)
        → contains k (map connection_key (cross_service_connections rows))
          ≡ contains k (map (λ r. connection_key (connection_of r)) rows))
cross_service_connections_lem_example = cross_service_connections_lem rows

cross_service_connections-shared_key_example :
    cross_service_connections (
      row_of (lit "a") (lit "b" ++ (lit "->" ++ lit "c")) (lit "CALLS")
      ∷ row_of (lit "a" ++ (lit "->" ++ lit "b")) (lit "c") (lit "CALLS")
      ∷ [])
    ≡ connection_of (row_of (lit "a") (lit "b" ++ (lit "->" ++ lit "c")) (lit "CALLS")) ∷ []
cross_service_connections-shared_key_example =
    cross_service_connections-shared_key (lit "a") (lit "b") (lit "c") (lit "CALLS")
