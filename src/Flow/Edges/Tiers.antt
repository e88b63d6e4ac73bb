-- ===== src/Flow/Edges/Tiers.antt =====
-- The runtime view and the view of the guards have no dangling edge.
use code_iq.Base.{
  ◌≡◌, refl, sym, subst, true, List, [], ◌∷◌, ◌++◌, ◌==◌, any, map, All, All-append, arith,
}
use code_iq.Base.Text.{Text, text_eq, text_beq_iff, lit}
use code_iq.Model.Node.{Value}
use code_iq.Flow.Models.{
  FlowNode, FlowEdge, joins, node_ids, valid_edges, subgraph_if_any, new_styled_edge,
}
use code_iq.Flow.Views.{GraphView}
use code_iq.Flow.Runtime.{frontend_nodes, backend_nodes, data_nodes, tier_edge, build_runtime_view}
use code_iq.Flow.Auth.{guard_nodes, endpoint_nodes, protects_edges, build_auth_view}
use code_iq.Flow.Edges.{
  has_id, has_id-left, has_id-right, nodes_in, nodes_in-join, nodes_in-subgraph_if_any, All-if,
  valid_edges-All,
}

-- Edges between the nodes of a list.
abbrev Joins : List FlowNode → FlowEdge → Type 0
Joins ns e = joins (node_ids ns) e ≡ true

tier_edge-joined :
    (label : Text) (ns ms all : List FlowNode)
    → ((id : Text) → has_id id ns ≡ true → has_id id all ≡ true)
    → ((id : Text) → has_id id ms ≡ true → has_id id all ≡ true)
    → All (Joins all) (tier_edge label ns ms)
tier_edge-joined label [] ms all from to = tt
tier_edge-joined label (n ∷ ns) [] all from to = tt
tier_edge-joined label (n ∷ ns) (m ∷ ms) all from to =
    (ground (arith, from n.id, to m.id, text_beq_iff n.id n.id, text_beq_iff m.id m.id), tt)

tier_edges-joined :
    (front back data_tier : List FlowNode)
    → All
        (Joins (front ++ back ++ data_tier))
        (tier_edge (lit "calls") front back ++ tier_edge (lit "queries") back data_tier)
tier_edges-joined front back data_tier =
    let all = front ++ back ++ data_tier in
    let from_front : (id : Text) → has_id id front ≡ true → has_id id all ≡ true =
      λ id h. has_id-left id (front ++ back) data_tier (has_id-left id front back h) in
    let from_back : (id : Text) → has_id id back ≡ true → has_id id all ≡ true =
      λ id h. has_id-left id (front ++ back) data_tier (has_id-right id front back h) in
    All-append (Joins all) (tier_edge (lit "calls") front back)
      (tier_edge (lit "queries") back data_tier)
      (tier_edge-joined (lit "calls") front back all from_front from_back)
      (tier_edge-joined (lit "queries") back data_tier all from_back
        (λ id h. has_id-right id (front ++ back) data_tier h))

-- No edge of the runtime view is dangling: all are drawn.
pub build_runtime_view-valid :
    (snap : GraphView) → valid_edges (build_runtime_view snap) ≡ (build_runtime_view snap).edges
unfolding build_runtime_view
build_runtime_view-valid snap =
    let front = frontend_nodes snap in
    let back = backend_nodes snap in
    let data_tier = data_nodes snap in
    let front_sg = subgraph_if_any (lit "frontend") (lit "Frontend") front [] in
    let back_sg = subgraph_if_any (lit "backend") (lit "Backend") back [] in
    let data_sg = subgraph_if_any (lit "data") (lit "Data Layer") data_tier [] in
    let nodes : nodes_in (front_sg ++ back_sg ++ data_sg) ≡ front ++ back ++ data_tier =
      nodes_in-join (front_sg ++ back_sg) data_sg _ _
        (nodes_in-join front_sg back_sg _ _
          (nodes_in-subgraph_if_any (lit "frontend") (lit "Frontend") front [])
          (nodes_in-subgraph_if_any (lit "backend") (lit "Backend") back []))
        (nodes_in-subgraph_if_any (lit "data") (lit "Data Layer") data_tier []) in
    valid_edges-All (build_runtime_view snap) refl (
      subst (λ l. All (Joins l) (build_runtime_view snap).edges) (sym nodes)
        (tier_edges-joined front back data_tier))

has_id-any :
    (id : Text) (ns : List FlowNode) → any (λ n. n.id == id) ns ≡ true → has_id id ns ≡ true
has_id-any id [] h = cc
has_id-any id (n ∷ ns) h =
    ground (arith, text_beq_iff id n.id, text_beq_iff n.id id, has_id-any id ns)

protects-joined :
    (all guards : List FlowNode)
    → ((id : Text) → has_id id guards ≡ true → has_id id all ≡ true)
    → has_id (lit "ep_protected") all ≡ true
    → All
        (Joins all)
        (map (λ g. new_styled_edge g.id (lit "ep_protected") (lit "protects") (lit "thick")) guards)
protects-joined all [] from to = tt
protects-joined all (g ∷ guards) from to = (
  ground (arith, from g.id, text_beq_iff g.id g.id, to),
  protects-joined all guards (λ id h. from id (ground arith)) to,
)

protects_edges-joined :
    (guards eps : List FlowNode) → All (Joins (guards ++ eps)) (protects_edges guards eps)
protects_edges-joined guards eps =
    All-if (Joins (guards ++ eps)) (any (λ n. n.id == lit "ep_protected") eps) _ (λ h.
      protects-joined (guards ++ eps) guards (λ id. has_id-left id guards eps)
        (has_id-right (lit "ep_protected") guards eps (has_id-any (lit "ep_protected") eps h)))

-- No edge of the view of the guards is dangling: all are drawn.
pub build_auth_view-valid :
    (format_value : Value → Text) (snap : GraphView)
    → valid_edges (build_auth_view format_value snap) ≡ (build_auth_view format_value snap).edges
unfolding build_auth_view
build_auth_view-valid format_value snap =
    let guards = guard_nodes format_value snap in
    let eps = endpoint_nodes snap in
    let guards_sg = subgraph_if_any (lit "guards") (lit "Auth Guards") guards [] in
    let eps_sg = subgraph_if_any (lit "endpoints") (lit "Endpoints") eps [] in
    let nodes : nodes_in (guards_sg ++ eps_sg) ≡ guards ++ eps =
      nodes_in-join guards_sg eps_sg _ _
        (nodes_in-subgraph_if_any (lit "guards") (lit "Auth Guards") guards [])
        (nodes_in-subgraph_if_any (lit "endpoints") (lit "Endpoints") eps []) in
    valid_edges-All (build_auth_view format_value snap) refl (
      subst (λ l. All (Joins l) (build_auth_view format_value snap).edges) (sym nodes)
        (protects_edges-joined guards eps))
