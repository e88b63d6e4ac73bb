-- ===== src/Flow/Runtime.antt =====
-- `buildRuntimeView` of internal/flow/builders.go: front end, back end and data.
use code_iq.Base.{Bool, not, List, [], ◌∷◌, ◌++◌, ◌==◌, keep, is_nonempty, length, if◌then◌else◌}
use code_iq.Base.Text.{Text, text_eq, lit}
use code_iq.Base.Text.Decimal.{show}
use code_iq.Model.NodeKind
use code_iq.Model.Node.{CodeNode}
use code_iq.Flow.Models.{
  amount, FlowNode, FlowEdge, Diagram, new_node, new_label_edge, new_diagram, counted_if_any,
  subgraph_if_any,
}
use code_iq.Flow.Views.{GraphView, find_by_kind, layer_of}

-- A node that names its count in its label only.
abbrev pub labelled_if_any : Text → Text → Text → List CodeNode → List FlowNode
labelled_if_any id label kind rows =
    if is_nonempty rows then new_node id (label ++ lit " x" ++ show (length rows)) kind ∷ [] else []

abbrev pub topics_and_queues : GraphView → List CodeNode
topics_and_queues snap = find_by_kind NodeKind.topic snap ++ find_by_kind NodeKind.queue snap

abbrev pub is_frontend : CodeNode → Bool
is_frontend e = layer_of e == lit "frontend"

unfoldable pub frontend_nodes : GraphView → List FlowNode
unfolding layer_of
frontend_nodes snap =
    labelled_if_any (lit "rt_fe_endpoints") (lit "Frontend Routes") (lit "endpoint")
      (keep is_frontend (find_by_kind NodeKind.endpoint snap))
    ++ labelled_if_any (lit "rt_components") (lit "Components") (lit "component")
        (find_by_kind NodeKind.component snap)

unfoldable pub backend_nodes : GraphView → List FlowNode
unfolding layer_of
backend_nodes snap =
    counted_if_any (lit "rt_be_endpoints") (lit "API Endpoints") (lit "endpoint")
      (keep (λ e. not (is_frontend e)) (find_by_kind NodeKind.endpoint snap))
    ++ labelled_if_any (lit "rt_messaging") (lit "Messaging") (lit "messaging")
        (topics_and_queues snap)

unfoldable pub data_nodes : GraphView → List FlowNode
data_nodes snap =
    labelled_if_any (lit "rt_entities") (lit "Entities") (lit "entity")
      (find_by_kind NodeKind.entity snap)
    ++ labelled_if_any (lit "rt_database") (lit "DB Connections") (lit "database")
        (find_by_kind NodeKind.database_connection snap)

-- An edge between the first nodes of two tiers that are both there.
abbrev pub tier_edge : Text → List FlowNode → List FlowNode → List FlowEdge
tier_edge label (a ∷ ns) (b ∷ ms) = new_label_edge a.id b.id label ∷ []
tier_edge label _ _ = []

unfoldable pub build_runtime_view : GraphView → Diagram
unfolding frontend_nodes backend_nodes data_nodes
build_runtime_view snap =
    let frontend = frontend_nodes snap in
    let backend = backend_nodes snap in
    let data_tier = data_nodes snap in
    record (new_diagram (lit "Runtime Architecture") (lit "runtime")) {
      subgraphs =
          subgraph_if_any (lit "frontend") (lit "Frontend") frontend []
          ++ subgraph_if_any (lit "backend") (lit "Backend") backend []
          ++ subgraph_if_any (lit "data") (lit "Data Layer") data_tier [];
      edges =
          tier_edge (lit "calls") frontend backend ++ tier_edge (lit "queries") backend data_tier;
      stats =
          (lit "endpoints", amount (length (find_by_kind NodeKind.endpoint snap)))
          ∷ (lit "entities", amount (length (find_by_kind NodeKind.entity snap)))
          ∷ (lit "components", amount (length (find_by_kind NodeKind.component snap)))
          ∷ (lit "topics", amount (length (topics_and_queues snap)))
          ∷ (lit "db_connections", amount (length (find_by_kind NodeKind.database_connection snap)))
          ∷ [];
    }
