-- ===== src/Flow/Auth.antt =====
-- `buildAuthView` of internal/flow/builders.go: guards and the endpoints that they protect. How
-- `fmt` writes a value that is no text is an argument.
use code_iq.Base.{
  not, none, some, List, [], ◌∷◌, ◌++◌, ◌==◌, map, keep, contains, any, is_nonempty, length,
  if◌then◌else◌,
}
use code_iq.Base.Text.{Text, text_eq, lit}
use code_iq.Base.Text.Decimal.{show}
use code_iq.Base.Assoc.{keys, lookup}
use code_iq.Base.Groups.{get, group}
use code_iq.Base.Sort.{sort_by}
use code_iq.Model.NodeKind
use code_iq.Model.EdgeKind
use code_iq.Model.Node.{CodeNode, CodeEdge, Value, text}
use code_iq.Flow.Models.{
  amount, name, percentage, FlowNode, FlowEdge, Diagram, new_node_with_props, new_node_with_style,
  new_styled_edge, new_diagram, count_props, counted_if_any, subgraph_if_any,
}
use code_iq.Flow.Views.{GraphView, find_by_kind, sort_by_id}

unfoldable pub protected_ids : List CodeEdge → List Text
protected_ids es = map (λ e. e.target_id) (keep (λ e. EdgeKind.same e.kind EdgeKind.protects) es)

abbrev pub styled_if_any : Text → Text → Text → List CodeNode → List FlowNode
styled_if_any id label style rows =
    if is_nonempty rows
    then new_node_with_style id (label ++ lit " x" ++ show (length rows)) (lit "endpoint") style
        (count_props rows)
      ∷ []
    else []

abbrev pub sorted_endpoints : GraphView → List CodeNode
sorted_endpoints snap = sort_by_id (find_by_kind NodeKind.endpoint snap)

unfoldable pub protected_endpoints : GraphView → List CodeNode
unfolding protected_ids
protected_endpoints snap =
    keep (λ n. contains n.id (protected_ids snap.edges)) (sorted_endpoints snap)

unfoldable pub unprotected_endpoints : GraphView → List CodeNode
unfolding protected_ids
unprotected_endpoints snap =
    keep (λ n. not (contains n.id (protected_ids snap.edges))) (sorted_endpoints snap)

unfoldable pub endpoint_nodes : GraphView → List FlowNode
unfolding protected_endpoints unprotected_endpoints
endpoint_nodes snap =
    styled_if_any (lit "ep_protected") (lit "Protected") (lit "success") (protected_endpoints snap)
    ++ styled_if_any (lit "ep_unprotected") (lit "Unprotected") (lit "danger")
        (unprotected_endpoints snap)

abbrev pub protects_edges : List FlowNode → List FlowNode → List FlowEdge
protects_edges guards eps =
    if any (λ n. n.id == lit "ep_protected") eps
    then map (λ g. new_styled_edge g.id (lit "ep_protected") (lit "protects") (lit "thick")) guards
    else []

module _ (format_value : Value → Text) where
  unfoldable pub auth_type : CodeNode → Text
  auth_type g = elim (lookup (lit "auth_type") g.properties) [
    | none ↦ lit "unknown"
    | some (text v) ↦ v
    | some v ↦ format_value v
  ]

  abbrev pub guard_node : List (Text × List CodeNode) → Text → FlowNode
  guard_node by_type t =
      let bucket = get t by_type in
      new_node_with_props (lit "auth_" ++ t) (t ++ lit " x" ++ show (length bucket)) (lit "guard")
        ((lit "auth_type", name t) ∷ (lit "count", amount (length bucket)) ∷ [])

  unfoldable pub guard_nodes : GraphView → List FlowNode
  unfolding auth_type
  guard_nodes snap =
      let guards_by_type =
        group auth_type (λ g. g) (sort_by_id (find_by_kind NodeKind.guard snap)) in
      map (guard_node guards_by_type) (sort_by (λ t. t) (keys guards_by_type))
      ++ counted_if_any (lit "auth_middleware") (lit "Middleware") (lit "middleware")
          (sort_by_id (find_by_kind NodeKind.middleware snap))

  unfoldable pub build_auth_view : GraphView → Diagram
  unfolding guard_nodes endpoint_nodes
  build_auth_view snap =
      let guards = guard_nodes snap in
      let eps = endpoint_nodes snap in
      record (new_diagram (lit "Auth & Security") (lit "auth")) {
        subgraphs =
            subgraph_if_any (lit "guards") (lit "Auth Guards") guards []
            ++ subgraph_if_any (lit "endpoints") (lit "Endpoints") eps [];
        edges = protects_edges guards eps;
        stats =
            (lit "guards", amount (length (find_by_kind NodeKind.guard snap)))
            ∷ (lit "middleware", amount (length (find_by_kind NodeKind.middleware snap)))
            ∷ (lit "protected", amount (length (protected_endpoints snap)))
            ∷ (lit "unprotected", amount (length (unprotected_endpoints snap)))
            ∷ (
              lit "coverage_pct",
              percentage (length (protected_endpoints snap)) (length (sorted_endpoints snap)),
            )
            ∷ [];
      }
