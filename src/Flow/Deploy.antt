-- ===== src/Flow/Deploy.antt =====
-- `buildDeployView` of internal/flow/builders.go: the deployed resources.
use code_iq.Base.{
  ℕ, suc, Bool, not, ◌&&◌, ◌||◌, Option, none, some, List, [], ◌∷◌, ◌++◌, ◌==◌, map, keep, contains,
  nat_beq, is_nonempty, length, if◌then◌else◌,
}
use code_iq.Base.Text.{Text, text_eq, lit, to_lower, has_prefix}
use code_iq.Base.Text.Search.{contains_text}
use code_iq.Base.Text.Decimal.{show}
use code_iq.Model.NodeKind
use code_iq.Model.EdgeKind
use code_iq.Model.Node.{CodeNode, CodeEdge}
use code_iq.Flow.Models.{amount, FlowEdge, Subgraph, Diagram, new_edge, new_subgraph, new_diagram}
use code_iq.Flow.Views.{GraphView, sort_by_id, indexed_id, make_indexed_nodes}

pub data DeployGroup : Type 0 where
  k8s compose tf docker no_group : DeployGroup

-- The cases of the switch, in order.
abbrev pub deploy_group : Text → DeployGroup
deploy_group id =
    if contains_text (lit "k8s:") id
    then k8s
    else if contains_text (lit "compose:") id
    then compose
    else if contains_text (lit "tf:") id
    then tf
    else if contains_text (lit "dockerfile") (to_lower id) || has_prefix id (lit "docker:")
    then docker
    else no_group

abbrev pub ordinal : DeployGroup → ℕ
ordinal k8s = 0
ordinal compose = 1
ordinal tf = 2
ordinal docker = 3
ordinal no_group = 4

unfoldable pub in_deploy_group : DeployGroup → List CodeNode → List CodeNode
unfolding contains_text to_lower has_prefix
in_deploy_group g = keep (λ n. nat_beq (ordinal (deploy_group n.id)) (ordinal g))

-- The five groups that are drawn.
pub record Groups : Type 0 where
  pub in_k8s : List CodeNode
  pub in_compose : List CodeNode
  pub in_tf : List CodeNode
  pub in_docker : List CodeNode
  pub in_other : List CodeNode

unfoldable pub groups_of : List CodeNode → Groups
unfolding in_deploy_group
groups_of infra =
    let in_k8s = in_deploy_group k8s infra in
    let in_compose = in_deploy_group compose infra in
    let in_tf = in_deploy_group tf infra in
    let in_docker = in_deploy_group docker infra in
    let grouped = map (λ n. n.id) (((in_k8s ++ in_compose) ++ in_tf) ++ in_docker) in
    record {
      in_k8s = in_k8s;
      in_compose = in_compose;
      in_tf = in_tf;
      in_docker = in_docker;
      in_other = keep (λ n. not (contains n.id grouped)) infra;
    }

-- `indexOf`; `none` is the -1.
unfoldable pub index_of : List CodeNode → Text → Option ℕ
index_of [] id = none
index_of (n ∷ ns) id =
    let later = index_of ns id in
    if n.id == id then some 0 else elim later [ none ↦ none | some i ↦ some (suc i) ]

-- The first group that holds the ID, and the place there.
unfoldable pub resolve_in : List (Text × List CodeNode) → Text → Text × ℕ
unfolding index_of
resolve_in [] id = (lit "other", 0)
resolve_in ((prefix, ns) ∷ groups) id =
    let later = resolve_in groups id in
    elim (index_of ns id) [ none ↦ later | some i ↦ (prefix, i) ]

abbrev pub prefixed : Groups → List (Text × List CodeNode)
prefixed g =
    (lit "k8s", g.in_k8s)
    ∷ (lit "compose", g.in_compose)
    ∷ (lit "tf", g.in_tf)
    ∷ (lit "docker", g.in_docker)
    ∷ (lit "other", g.in_other)
    ∷ []

abbrev pub resolve_group_index : Groups → Text → Text × ℕ
resolve_group_index g id = resolve_in (prefixed g) id

abbrev pub group_subgraph : Text → Text → Text → Text → List CodeNode → List Subgraph
group_subgraph id before after prefix ns =
    if is_nonempty ns
    then new_subgraph id (before ++ show (length ns) ++ after) (make_indexed_nodes ns prefix 20)
      ∷ []
    else []

abbrev pub links_infra : List Text → CodeEdge → Bool
links_infra ids e =
    (EdgeKind.same e.kind EdgeKind.connects_to || EdgeKind.same e.kind EdgeKind.depends_on)
    && (contains e.source_id ids && contains e.target_id ids)

abbrev pub place_id : Text × ℕ → Text
place_id (prefix, i) = indexed_id prefix i

abbrev pub deploy_edge : Groups → CodeEdge → FlowEdge
deploy_edge g e =
    new_edge (place_id (resolve_group_index g e.source_id))
      (place_id (resolve_group_index g e.target_id))

abbrev pub deploy_subgraphs : Groups → List Subgraph
deploy_subgraphs g =
    group_subgraph (lit "k8s") (lit "Kubernetes (") (lit " resources)") (lit "k8s") g.in_k8s
    ++ group_subgraph (lit "compose") (lit "Docker Compose (") (lit " services)") (lit "compose")
        g.in_compose
    ++ group_subgraph (lit "terraform") (lit "Terraform (") (lit " resources)") (lit "tf") g.in_tf
    ++ group_subgraph (lit "docker") (lit "Docker (") (lit " images)") (lit "docker") g.in_docker
    ++ group_subgraph (lit "other_infra") (lit "Other (") (lit ")") (lit "other") g.in_other

abbrev pub is_infra : CodeNode → Bool
is_infra n =
    NodeKind.same n.kind NodeKind.infra_resource || NodeKind.same n.kind NodeKind.azure_resource

unfoldable pub build_deploy_view : GraphView → Diagram
unfolding groups_of resolve_in make_indexed_nodes
build_deploy_view snap =
    let infra = sort_by_id (keep is_infra snap.nodes) in
    let g = groups_of infra in
    record (new_diagram (lit "Deployment Topology") (lit "deploy")) {
      direction = lit "TD";
      subgraphs = deploy_subgraphs g;
      edges = map (deploy_edge g) (keep (links_infra (map (λ n. n.id) infra)) snap.edges);
      stats =
          (lit "k8s", amount (length g.in_k8s))
          ∷ (lit "compose", amount (length g.in_compose))
          ∷ (lit "terraform", amount (length g.in_tf))
          ∷ (lit "docker", amount (length g.in_docker))
          ∷ [];
    }
