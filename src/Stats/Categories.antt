-- ===== src/Stats/Categories.antt =====
-- The seven categories of internal/query/stats.go. A Go loop that fills several maps is one loop
-- for each map here: no turn reads what another map holds.
use code_iq.Base.{
  ℕ, Bool, true, false, not, Option, none, some, List, [], ◌∷◌, ◌==◌, map, keep, flat, length, sum,
  ltb, if◌then◌else◌,
}
use code_iq.Base.Text.{Text, text_eq, lit, to_lower, to_upper, trim_space, has_prefix}
use code_iq.Base.Text.Search.{is_blank, drop}
use code_iq.Base.Assoc.{values}
use code_iq.Base.Groups.{distinct}
use code_iq.Base.Counts.{count_under}
use code_iq.Model.NodeKind
use code_iq.Model.NodeKind.{NodeKind}
use code_iq.Model.EdgeKind
use code_iq.Model.EdgeKind.{EdgeKind}
use code_iq.Model.Node.{CodeNode, CodeEdge}
use code_iq.Analyzer.Layers.{string_property}
use code_iq.Stats.Ordered.{OrderedMap, ordered}
use code_iq.Stats.Ranked.{sort_by_value_desc}
use code_iq.Stats.Names.{extract_language, resolve_db_type, prop_or_label}

-- The values of the maps.
pub data RestStat : Type 0 where
  rest_total : ℕ → RestStat
  by_method : OrderedMap ℕ → RestStat

pub data Stat : Type 0 where
  number : ℕ → Stat
  counts : OrderedMap ℕ → Stat
  rest : OrderedMap RestStat → Stat

pub data Category : Type 0 where
  flat_counts : OrderedMap ℕ → Category
  stats : OrderedMap Stat → Category

-- `if s != "" { m[s]++ }`
abbrev pub unless_empty : Text → Option Text
unless_empty [] = none
unless_empty (c ∷ s) = some (c ∷ s)

abbrev pub unless_blank : Text → Option Text
unless_blank s = if is_blank s then none else some s

unfoldable pub compute_graph : List CodeNode → List CodeEdge → OrderedMap Stat
compute_graph nodes edges =
    let files = distinct (keep (λ f. not (is_blank f)) (map (λ n. n.file_path) nodes)) in
    ordered (
      (lit "nodes", number (length nodes))
      ∷ (lit "edges", number (length edges))
      ∷ (lit "files", number (length files))
      ∷ (
        lit "edges_by_kind",
        counts (sort_by_value_desc (count_under (λ e. some (EdgeKind.string e.kind)) edges)),
      )
      ∷ [])

unfoldable pub compute_languages : List CodeNode → OrderedMap ℕ
compute_languages nodes =
    sort_by_value_desc (count_under (λ n. unless_blank (extract_language n)) nodes)

abbrev pub framework_of : CodeNode → Text
framework_of n = trim_space (string_property (lit "framework") n.properties)

unfoldable pub compute_frameworks : List CodeNode → OrderedMap ℕ
compute_frameworks nodes =
    sort_by_value_desc (count_under (λ n. unless_empty (framework_of n)) nodes)

-- The three cases of the switch of `computeInfra`.
unfoldable pub database_of : NodeKind → CodeNode → Option Text
database_of NodeKind.database_connection n = unless_empty (resolve_db_type n)
database_of _ n = none

unfoldable pub messaging_of : NodeKind → CodeNode → Option Text
messaging_of NodeKind.topic n = some (prop_or_label n (lit "protocol"))
messaging_of NodeKind.queue n = some (prop_or_label n (lit "protocol"))
messaging_of NodeKind.message_queue n = some (prop_or_label n (lit "protocol"))
messaging_of _ n = none

unfoldable pub cloud_of : NodeKind → CodeNode → Option Text
cloud_of NodeKind.azure_resource n = some (prop_or_label n (lit "resource_type"))
cloud_of NodeKind.infra_resource n = some (prop_or_label n (lit "resource_type"))
cloud_of _ n = none

unfoldable pub compute_infra : List CodeNode → OrderedMap Stat
unfolding database_of messaging_of cloud_of
compute_infra nodes = ordered (
    (lit "databases", counts (sort_by_value_desc (count_under (λ n. database_of n.kind n) nodes)))
    ∷ (
      lit "messaging",
      counts (sort_by_value_desc (count_under (λ n. messaging_of n.kind n) nodes)),
    )
    ∷ (lit "cloud", counts (sort_by_value_desc (count_under (λ n. cloud_of n.kind n) nodes)))
    ∷ [])

-- The two branches of an endpoint. `EqualFold` with "grpc" is equality in lower case.
abbrev pub is_grpc : CodeNode → Bool
is_grpc n = to_lower (string_property (lit "protocol") n.properties) == lit "grpc"

abbrev pub method_of : Text → Text
method_of [] = lit "UNKNOWN"
method_of (c ∷ s) = to_upper (c ∷ s)

unfoldable pub rest_of : NodeKind → CodeNode → Option Text
rest_of NodeKind.endpoint n =
    if is_grpc n then none else some (method_of (string_property (lit "http_method") n.properties))
rest_of _ n = none

unfoldable pub is_grpc_endpoint : NodeKind → CodeNode → Bool
is_grpc_endpoint NodeKind.endpoint n = is_grpc n
is_grpc_endpoint _ n = false

abbrev pub produces_message : EdgeKind → Bool
produces_message EdgeKind.produces = true
produces_message EdgeKind.publishes = true
produces_message _ = false

abbrev pub consumes_message : EdgeKind → Bool
consumes_message EdgeKind.consumes = true
consumes_message EdgeKind.listens = true
consumes_message _ = false

unfoldable pub compute_connections : List CodeNode → List CodeEdge → OrderedMap Stat
unfolding rest_of is_grpc_endpoint
compute_connections nodes edges =
    let rest_by_method = count_under (λ n. rest_of n.kind n) nodes in
    let rest_map = ordered (
      (lit "total", rest_total (sum (values rest_by_method)))
      ∷ (lit "by_method", by_method (sort_by_value_desc rest_by_method))
      ∷ []) in
    ordered (
      (lit "rest", rest rest_map)
      ∷ (lit "grpc", number (length (keep (λ n. is_grpc_endpoint n.kind n) nodes)))
      ∷ (
        lit "websocket",
        number (length (keep (λ n. NodeKind.same n.kind NodeKind.websocket_endpoint) nodes)),
      )
      ∷ (lit "producers", number (length (keep (λ e. produces_message e.kind) edges)))
      ∷ (lit "consumers", number (length (keep (λ e. consumes_message e.kind) edges)))
      ∷ [])

abbrev pub or_unknown_auth : Text → Text
or_unknown_auth [] = lit "unknown"
or_unknown_auth (c ∷ s) = c ∷ s

unfoldable pub auth_of : NodeKind → CodeNode → Option Text
auth_of NodeKind.guard n = some (or_unknown_auth (string_property (lit "auth_type") n.properties))
auth_of _ n =
    let fw = framework_of n in
    if has_prefix fw (lit "auth:") then unless_empty (trim_space (drop 5 fw)) else none

unfoldable pub compute_auth : List CodeNode → OrderedMap ℕ
unfolding auth_of
compute_auth nodes = sort_by_value_desc (count_under (λ n. auth_of n.kind n) nodes)

-- The names and kinds that `computeArchitecture` counts, in its order.
abbrev pub architecture_kinds : List (Text × NodeKind)
architecture_kinds =
    (lit "classes", NodeKind.class)
    ∷ (lit "interfaces", NodeKind.interface)
    ∷ (lit "abstract_classes", NodeKind.abstract_class)
    ∷ (lit "enums", NodeKind.enum)
    ∷ (lit "annotation_types", NodeKind.annotation_type)
    ∷ (lit "modules", NodeKind.module_node)
    ∷ (lit "methods", NodeKind.method)
    ∷ []

abbrev pub count_kind : NodeKind → List CodeNode → ℕ
count_kind k nodes = length (keep (λ n. NodeKind.same n.kind k) nodes)

unfoldable pub compute_architecture : List CodeNode → OrderedMap ℕ
compute_architecture nodes = ordered (
    flat
      (λ row. if ltb 0 (count_kind row.1 nodes) then (row.0, count_kind row.1 nodes) ∷ [] else [])
      architecture_kinds)

unfoldable pub compute_stats : List CodeNode → List CodeEdge → OrderedMap Category
compute_stats nodes edges = ordered (
    (lit "graph", stats (compute_graph nodes edges))
    ∷ (lit "languages", flat_counts (compute_languages nodes))
    ∷ (lit "frameworks", flat_counts (compute_frameworks nodes))
    ∷ (lit "infra", stats (compute_infra nodes))
    ∷ (lit "connections", stats (compute_connections nodes edges))
    ∷ (lit "auth", flat_counts (compute_auth nodes))
    ∷ (lit "architecture", flat_counts (compute_architecture nodes))
    ∷ [])

-- The `switch` on the name in lower case; `none` is the nil of an unknown category.
unfoldable pub compute_category : List CodeNode → List CodeEdge → Text → Option Category
compute_category nodes edges category =
    let name = to_lower category in
    if lit "graph" == name
    then some (stats (compute_graph nodes edges))
    else if lit "languages" == name
    then some (flat_counts (compute_languages nodes))
    else if lit "frameworks" == name
    then some (flat_counts (compute_frameworks nodes))
    else if lit "infra" == name
    then some (stats (compute_infra nodes))
    else if lit "connections" == name
    then some (stats (compute_connections nodes edges))
    else if lit "auth" == name
    then some (flat_counts (compute_auth nodes))
    else if lit "architecture" == name
    then some (flat_counts (compute_architecture nodes))
    else none
