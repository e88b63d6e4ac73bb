-- ===== src/Flow/Overview.antt =====
-- `buildOverview` of internal/flow/builders.go: pipelines, infrastructure, application, security.
use code_iq.Base.{
  Bool, true, false, not, ◌&&◌, ◌||◌, Option, none, some, List, [], ◌∷◌, ◌++◌, map, keep, contains,
  is_nonempty, length, if◌then◌else◌,
}
use code_iq.Base.Text.{Text, text_eq, lit, to_lower}
use code_iq.Base.Text.Search.{contains_text}
use code_iq.Base.Text.Decimal.{show}
use code_iq.Model.NodeKind
use code_iq.Model.Node.{CodeNode}
use code_iq.Flow.Models.{
  amount, FlowNode, FlowEdge, Subgraph, Diagram, new_node_with_props, new_edge, new_label_edge,
  new_styled_edge, new_diagram, counted, counted_if_any, subgraph_if_any,
}
use code_iq.Flow.Views.{GraphView, find_by_kind, is_ci_node, find_subgraph}

-- The three named groups of the infrastructure, in the order of the switch.
pub data InfraGroup : Type 0 where
  k8s docker terraform no_group : InfraGroup

abbrev pub infra_group : Text → InfraGroup
infra_group id =
    if contains_text (lit "k8s:") id
    then k8s
    else if contains_text (lit "compose:") id || contains_text (lit "dockerfile") (to_lower id)
    then docker
    else if contains_text (lit "tf:") id
    then terraform
    else no_group

abbrev pub is_k8s : InfraGroup → Bool
is_k8s k8s = true
is_k8s _ = false

abbrev pub is_docker : InfraGroup → Bool
is_docker docker = true
is_docker _ = false

abbrev pub is_terraform : InfraGroup → Bool
is_terraform terraform = true
is_terraform _ = false

-- What the builder first reads from the snapshot.
pub record Parts : Type 0 where
  pub workflows : List CodeNode
  pub ci_jobs : List CodeNode
  pub infra : List CodeNode
  pub endpoints : List CodeNode
  pub entities : List CodeNode
  pub classes : List CodeNode
  pub app_methods : List CodeNode
  pub components : List CodeNode
  pub topics : List CodeNode
  pub db_conns : List CodeNode
  pub guards : List CodeNode
  pub middleware : List CodeNode

unfoldable pub parts_of : GraphView → Parts
parts_of snap = record {
  workflows = keep (λ n. NodeKind.same n.kind NodeKind.module_node && is_ci_node n.id) snap.nodes;
  ci_jobs = keep (λ n. NodeKind.same n.kind NodeKind.method && is_ci_node n.id) snap.nodes;
  infra = find_by_kind NodeKind.infra_resource snap ++ find_by_kind NodeKind.azure_resource snap;
  endpoints = find_by_kind NodeKind.endpoint snap;
  entities = find_by_kind NodeKind.entity snap;
  classes = find_by_kind NodeKind.class snap;
  app_methods = keep (λ m. not (is_ci_node m.id)) (find_by_kind NodeKind.method snap);
  components = find_by_kind NodeKind.component snap;
  topics = find_by_kind NodeKind.topic snap ++ find_by_kind NodeKind.queue snap;
  db_conns = find_by_kind NodeKind.database_connection snap;
  guards = find_by_kind NodeKind.guard snap;
  middleware = find_by_kind NodeKind.middleware snap;
}

-- From the pipelines, or their jobs, to the first node of the infrastructure, and from there to the
-- first node of the application.
abbrev pub deploys_edge : Text → Option FlowNode → List FlowEdge
deploys_edge source none = []
deploys_edge source (some n) = new_label_edge source n.id (lit "deploys") ∷ []

abbrev pub hosts_edge : Option FlowNode → List FlowNode → List FlowEdge
hosts_edge (some n) (a ∷ rest) = new_label_edge n.id a.id (lit "hosts") ∷ []
hosts_edge _ _ = []

abbrev pub first_node : List FlowNode → Option FlowNode
first_node [] = none
first_node (n ∷ ns) = some n

abbrev pub first_of : Option Subgraph → Option FlowNode
first_of none = none
first_of (some sg) = first_node sg.nodes

module _ (p : Parts) where
  unfoldable pub ci_nodes : List FlowNode
  ci_nodes =
      if is_nonempty p.workflows || is_nonempty p.ci_jobs
      then counted (lit "ci_pipelines") (lit "Pipelines") (lit "pipeline") p.workflows
        ∷ counted_if_any (lit "ci_jobs") (lit "Jobs") (lit "job") p.ci_jobs
      else []

  abbrev pub in_group : (InfraGroup → Bool) → List CodeNode
  in_group test = keep (λ n. test (infra_group n.id)) p.infra

  -- The nodes whose IDs no group holds.
  unfoldable pub other_infra : List CodeNode
  other_infra =
      let grouped =
        map (λ n. n.id) ((in_group is_k8s ++ in_group is_docker) ++ in_group is_terraform) in
      keep (λ n. not (contains n.id grouped)) p.infra

  unfoldable pub infra_nodes : List FlowNode
  unfolding other_infra contains_text to_lower
  infra_nodes =
      if is_nonempty p.infra
      then counted_if_any (lit "infra_k8s") (lit "K8s Resources") (lit "k8s") (in_group is_k8s)
        ++ counted_if_any (lit "infra_docker") (lit "Docker") (lit "docker") (in_group is_docker)
        ++ counted_if_any (lit "infra_tf") (lit "Terraform") (lit "terraform")
            (in_group is_terraform)
        ++ counted_if_any (lit "infra_other") (lit "Infra") (lit "infra") other_infra
      else []

  abbrev pub named_app_nodes : List FlowNode
  named_app_nodes =
      counted_if_any (lit "app_endpoints") (lit "Endpoints") (lit "endpoint") p.endpoints
      ++ counted_if_any (lit "app_entities") (lit "Entities") (lit "entity") p.entities
      ++ counted_if_any (lit "app_components") (lit "Components") (lit "component") p.components
      ++ counted_if_any (lit "app_messaging") (lit "Topics/Queues") (lit "messaging") p.topics
      ++ counted_if_any (lit "app_database") (lit "DB Connections") (lit "database") p.db_conns

  abbrev pub code_node : FlowNode
  code_node =
      new_node_with_props (lit "app_code")
        (lit "Classes x"
          ++ show (length p.classes)
          ++ lit ", Methods x"
          ++ show (length p.app_methods))
        (lit "code")
        ((lit "classes", amount (length p.classes))
          ∷ (lit "methods", amount (length p.app_methods))
          ∷ [])

  unfoldable pub app_nodes : List FlowNode
  app_nodes =
      if is_nonempty named_app_nodes
      then named_app_nodes
      else if is_nonempty p.classes || is_nonempty p.app_methods
      then code_node ∷ []
      else []

  unfoldable pub security_nodes : List FlowNode
  security_nodes =
      if is_nonempty p.guards || is_nonempty p.middleware
      then counted_if_any (lit "sec_guards") (lit "Auth Guards") (lit "guard") p.guards
        ++ counted_if_any (lit "sec_middleware") (lit "Middleware") (lit "middleware") p.middleware
      else []

  abbrev pub overview_subgraphs : List Subgraph
  overview_subgraphs =
      subgraph_if_any (lit "ci") (lit "CI/CD Pipeline") ci_nodes (lit "ci")
      ++ subgraph_if_any (lit "infra") (lit "Infrastructure") infra_nodes (lit "deploy")
      ++ subgraph_if_any (lit "app") (lit "Application") app_nodes (lit "runtime")
      ++ subgraph_if_any (lit "security") (lit "Security") security_nodes (lit "auth")

  -- The first node of the infrastructure's subgraph.
  abbrev pub first_infra : Option FlowNode
  first_infra = first_of (find_subgraph overview_subgraphs (lit "infra"))

  unfoldable pub ci_edges : List FlowEdge
  ci_edges =
      if is_nonempty p.ci_jobs then new_edge (lit "ci_pipelines") (lit "ci_jobs") ∷ [] else []

  unfoldable pub app_edges : List FlowEdge
  app_edges =
      (if is_nonempty p.endpoints && is_nonempty p.entities
        then new_label_edge (lit "app_endpoints") (lit "app_entities") (lit "queries") ∷ []
        else [])
      ++ (if is_nonempty p.endpoints && is_nonempty p.topics
          then new_styled_edge (lit "app_endpoints") (lit "app_messaging") [] (lit "dotted") ∷ []
          else [])

  unfoldable pub security_edges : List FlowEdge
  security_edges =
      if is_nonempty p.guards && is_nonempty p.endpoints
      then new_styled_edge (lit "sec_guards") (lit "app_endpoints") (lit "protects") (lit "thick")
        ∷ []
      else []

  abbrev pub ci_source : Text
  ci_source = if is_nonempty p.ci_jobs then lit "ci_jobs" else lit "ci_pipelines"

  unfoldable pub cross_edges : List FlowEdge
  unfolding ci_nodes infra_nodes app_nodes security_nodes
  cross_edges =
      (if is_nonempty ci_nodes && is_nonempty p.infra
        then deploys_edge ci_source first_infra
        else [])
      ++ (if is_nonempty p.infra && is_nonempty app_nodes
          then hosts_edge first_infra app_nodes
          else [])

unfoldable pub build_overview : GraphView → Diagram
unfolding parts_of ci_nodes infra_nodes app_nodes security_nodes ci_edges app_edges security_edges
    cross_edges
build_overview snap =
    let p = parts_of snap in
    record (new_diagram (lit "Architecture Overview") (lit "overview")) {
      subgraphs = overview_subgraphs p;
      edges = ci_edges p ++ app_edges p ++ security_edges p ++ cross_edges p;
      stats =
          (lit "total_nodes", amount (length snap.nodes))
          ∷ (lit "total_edges", amount (length snap.edges))
          ∷ (lit "endpoints", amount (length p.endpoints))
          ∷ (lit "entities", amount (length p.entities))
          ∷ (lit "guards", amount (length p.guards))
          ∷ (lit "components", amount (length p.components))
          ∷ (lit "infra_resources", amount (length p.infra))
          ∷ [];
    }
