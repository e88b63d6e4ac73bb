-- ===== src/Flow/Edges/Deployed.antt =====
-- The deployment view draws all of its edges where no group is cut short.
use mathlib.Core.List.{append-nil, append_assoc}
use code_iq.Base.{
  ◌≡◌, refl, sym, ap, subst, ◌∙◌, inl, inr, Bool, true, ◌&&◌, ◌||◌, List, [], ◌∷◌, ◌++◌, map, keep,
  any, All, arith, Bool-cases,
}
use code_iq.Base.Text.{Text, text_eq, lit}
use code_iq.Model.EdgeKind
use code_iq.Model.Node.{CodeNode, CodeEdge}
use code_iq.Flow.Models.{FlowNode, joins, node_ids, valid_edges}
use code_iq.Flow.Views.{GraphView, index_nodes, make_indexed_nodes, sort_by_id}
use code_iq.Flow.Deploy.{
  Groups, groups_of, prefixed, links_infra, group_subgraph, place_id, resolve_group_index, is_infra,
  deploy_edge, deploy_subgraphs, build_deploy_view,
}
use code_iq.Flow.Edges.{has_id, nodes_in, nodes_in-join, valid_edges-All}
use code_iq.Flow.Edges.Deploy.{has_node, drawn_nodes, Fits, resolve_in-has_id, groups_of-cover}

and_parts : (a b c : Bool) → (a && (b && c)) ≡ true → (b ≡ true) × (c ≡ true)
and_parts a b c h = ground arith

nodes_in-group_subgraph :
    (id before after prefix : Text) (ns : List CodeNode)
    → nodes_in (group_subgraph id before after prefix ns) ≡ make_indexed_nodes ns prefix 20
unfolding make_indexed_nodes index_nodes
nodes_in-group_subgraph id before after prefix [] = refl
nodes_in-group_subgraph id before after prefix (n ∷ ns) =
    append-nil (make_indexed_nodes (n ∷ ns) prefix 20)

module _ (g : Groups) where
  abbrev drawn_for : Text → List CodeNode → List FlowNode
  drawn_for prefix ns = make_indexed_nodes ns prefix 20

  deploy_subgraphs-nodes :
      nodes_in (deploy_subgraphs g)
      ≡ drawn_for (lit "k8s") g.in_k8s
        ++ drawn_for (lit "compose") g.in_compose
        ++ drawn_for (lit "tf") g.in_tf
        ++ drawn_for (lit "docker") g.in_docker
        ++ drawn_for (lit "other") g.in_other
  deploy_subgraphs-nodes =
      let k8s =
        group_subgraph (lit "k8s") (lit "Kubernetes (") (lit " resources)") (lit "k8s") g.in_k8s in
      let compose =
        group_subgraph (lit "compose") (lit "Docker Compose (") (lit " services)") (lit "compose")
          g.in_compose in
      let tf =
        group_subgraph (lit "terraform") (lit "Terraform (") (lit " resources)") (lit "tf")
          g.in_tf in
      let docker =
        group_subgraph (lit "docker") (lit "Docker (") (lit " images)") (lit "docker")
          g.in_docker in
      let other =
        group_subgraph (lit "other_infra") (lit "Other (") (lit ")") (lit "other") g.in_other in
      nodes_in-join (k8s ++ compose ++ tf ++ docker) other _ _
        (nodes_in-join (k8s ++ compose ++ tf) docker _ _
          (nodes_in-join (k8s ++ compose) tf _ _
            (nodes_in-join k8s compose _ _
              (nodes_in-group_subgraph (lit "k8s") (lit "Kubernetes (") (lit " resources)")
                (lit "k8s") g.in_k8s)
              (nodes_in-group_subgraph (lit "compose") (lit "Docker Compose (") (lit " services)")
                (lit "compose") g.in_compose))
            (nodes_in-group_subgraph (lit "terraform") (lit "Terraform (") (lit " resources)")
              (lit "tf") g.in_tf))
          (nodes_in-group_subgraph (lit "docker") (lit "Docker (") (lit " images)") (lit "docker")
            g.in_docker))
        (nodes_in-group_subgraph (lit "other_infra") (lit "Other (") (lit ")") (lit "other")
          g.in_other)

  drawn_nodes-deploy : drawn_nodes (prefixed g) ≡ nodes_in (deploy_subgraphs g)
  drawn_nodes-deploy =
      let a = drawn_for (lit "k8s") g.in_k8s in
      let b = drawn_for (lit "compose") g.in_compose in
      let c = drawn_for (lit "tf") g.in_tf in
      let d = drawn_for (lit "docker") g.in_docker in
      let e = drawn_for (lit "other") g.in_other in
      ap (λ l. a ++ (b ++ (c ++ (d ++ l)))) (append-nil e)
      ∙ (sym (append_assoc a b (c ++ (d ++ e)))
          ∙ (sym (append_assoc (a ++ b) c (d ++ e))
              ∙ (sym (append_assoc (a ++ b ++ c) d e) ∙ sym deploy_subgraphs-nodes)))

  place-drawn :
      (infra : List CodeNode)
      → Fits (prefixed g)
      → ((id : Text)
          → has_node id infra ≡ true
          → any (λ row. has_node id row.1) (prefixed g) ≡ true)
      → (id : Text) → has_node id infra ≡ true
      → has_id (place_id (resolve_group_index g id)) (nodes_in (deploy_subgraphs g)) ≡ true
  place-drawn infra fits cover id h =
      subst (λ l. has_id (place_id (resolve_group_index g id)) l ≡ true) drawn_nodes-deploy
        (resolve_in-has_id (prefixed g) id fits (cover id h))

  both_ends :
      (infra : List CodeNode) (e : CodeEdge)
      → Fits (prefixed g)
      → ((id : Text)
          → has_node id infra ≡ true
          → any (λ row. has_node id row.1) (prefixed g) ≡ true)
      → links_infra (map (λ n. n.id) infra) e ≡ true
      → joins (node_ids (nodes_in (deploy_subgraphs g))) (deploy_edge g e) ≡ true
  both_ends infra e fits cover linked =
      let ends =
        and_parts
          (EdgeKind.same e.kind EdgeKind.connects_to || EdgeKind.same e.kind EdgeKind.depends_on)
          (has_node e.source_id infra) (has_node e.target_id infra) linked in
      rw
        (
          place-drawn infra fits cover e.source_id ends.0,
          place-drawn infra fits cover e.target_id ends.1,
        )
        refl

  deploy_edges-joined :
      (infra : List CodeNode) (es : List CodeEdge)
      → Fits (prefixed g)
      → ((id : Text)
          → has_node id infra ≡ true
          → any (λ row. has_node id row.1) (prefixed g) ≡ true)
      → All
          (λ e. joins (node_ids (nodes_in (deploy_subgraphs g))) e ≡ true)
          (map (deploy_edge g) (keep (links_infra (map (λ n. n.id) infra)) es))
  deploy_edges-joined infra [] fits cover = tt
  deploy_edges-joined infra (e ∷ es) fits cover =
      elim (Bool-cases (links_infra (map (λ n. n.id) infra) e)) [
        | inl linked ↦
            rw linked (both_ends infra e fits cover linked, deploy_edges-joined infra es fits cover)
        | inr not_linked ↦ rw not_linked (deploy_edges-joined infra es fits cover)
      ]

-- Where no group has more than the twenty nodes that are drawn, no edge of the deployment view is
-- dangling.
pub build_deploy_view-valid :
    (snap : GraphView)
    → Fits (prefixed (groups_of (sort_by_id (keep is_infra snap.nodes))))
    → valid_edges (build_deploy_view snap) ≡ (build_deploy_view snap).edges
unfolding build_deploy_view
build_deploy_view-valid snap fits =
    let infra = sort_by_id (keep is_infra snap.nodes) in
    let g = groups_of infra in
    valid_edges-All (build_deploy_view snap) refl
      (deploy_edges-joined g infra snap.edges fits (λ id. groups_of-cover id infra))
