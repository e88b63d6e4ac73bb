-- ===== src/Flow/Edges/Overview.antt =====
-- The overview has no dangling edge.
use code_iq.Base.{
  ◌≡◌, refl, sym, ap, subst, ◌∙◌, inl, inr, Bool, true, ◌&&◌, ◌||◌, Option, none, some, List, [],
  ◌∷◌, ◌++◌, is_nonempty, All, All-append, arith, Bool-cases,
}
use code_iq.Base.Text.{Text, text_eq, text_beq, text_beq_iff, lit}
use code_iq.Flow.Models.{
  FlowNode, FlowEdge, Subgraph, joins, node_ids, valid_edges, subgraph_if_any,
}
use code_iq.Flow.Views.{GraphView, find_subgraph}
use code_iq.Flow.Overview.{
  Parts, parts_of, ci_nodes, infra_nodes, app_nodes, security_nodes, overview_subgraphs,
  first_infra, first_of, first_node, ci_source, deploys_edge, hosts_edge, ci_edges, app_edges,
  security_edges, cross_edges, build_overview,
}
use code_iq.Flow.Edges.{
  has_id, has_id-append, nodes_in, nodes_in-join, nodes_in-subgraph_if_any, find_subgraph-has_id,
  All-if, valid_edges-All,
}

first_node-cons :
    (ns : List FlowNode) (n : FlowNode)
    → first_node ns ≡ some n
    → (rest : List FlowNode) × (ns ≡ n ∷ rest)
first_node-cons [] n e = cc
first_node-cons (m ∷ ns) n e =
    (ns, ap (λ (o : Option FlowNode). elim o [ none ↦ m ∷ ns | some x ↦ x ∷ ns ]) e)

or_third : (a b c d : Bool) → c ≡ true → (a || b || c || d) ≡ true
or_third a b c d h = ground arith

module _ (p : Parts) where
  nodes_in-overview :
      nodes_in (overview_subgraphs p)
      ≡ ci_nodes p ++ infra_nodes p ++ app_nodes p ++ security_nodes p
  nodes_in-overview =
      let ci = subgraph_if_any (lit "ci") (lit "CI/CD Pipeline") (ci_nodes p) (lit "ci") in
      let infra =
        subgraph_if_any (lit "infra") (lit "Infrastructure") (infra_nodes p) (lit "deploy") in
      let app = subgraph_if_any (lit "app") (lit "Application") (app_nodes p) (lit "runtime") in
      let security =
        subgraph_if_any (lit "security") (lit "Security") (security_nodes p) (lit "auth") in
      nodes_in-join (ci ++ infra ++ app) security _ _
        (nodes_in-join (ci ++ infra) app _ _
          (nodes_in-join ci infra _ _
            (nodes_in-subgraph_if_any (lit "ci") (lit "CI/CD Pipeline") (ci_nodes p) (lit "ci"))
            (nodes_in-subgraph_if_any (lit "infra") (lit "Infrastructure") (infra_nodes p)
              (lit "deploy")))
          (nodes_in-subgraph_if_any (lit "app") (lit "Application") (app_nodes p) (lit "runtime")))
        (nodes_in-subgraph_if_any (lit "security") (lit "Security") (security_nodes p) (lit "auth"))

  ci_nodes-has_id :
      (has_id (lit "ci_jobs") (ci_nodes p) ≡ is_nonempty p.ci_jobs)
      × (is_nonempty (ci_nodes p) ≡ true → has_id (lit "ci_pipelines") (ci_nodes p) ≡ true)
  unfolding ci_nodes text_beq
  ci_nodes-has_id = ground arith

  app_nodes-has_id :
      (is_nonempty p.endpoints ≡ true → has_id (lit "app_endpoints") (app_nodes p) ≡ true)
      × (is_nonempty p.entities ≡ true → has_id (lit "app_entities") (app_nodes p) ≡ true)
      × (is_nonempty p.topics ≡ true → has_id (lit "app_messaging") (app_nodes p) ≡ true)
  unfolding app_nodes text_beq
  app_nodes-has_id = (
    λ h. ground (arith, has_id-append (lit "app_endpoints")),
    λ h. ground (arith, has_id-append (lit "app_entities")),
    λ h. ground (arith, has_id-append (lit "app_messaging")),
  )

  security_nodes-has_id :
      is_nonempty p.guards ≡ true → has_id (lit "sec_guards") (security_nodes p) ≡ true
  unfolding security_nodes text_beq
  security_nodes-has_id h = ground (arith, has_id-append (lit "sec_guards"))

  abbrev sections : List FlowNode
  sections = ci_nodes p ++ infra_nodes p ++ app_nodes p ++ security_nodes p

  in_sections :
      (id : Text)
      → has_id id sections ≡ (
          has_id id (ci_nodes p)
          || has_id id (infra_nodes p)
          || has_id id (app_nodes p)
          || has_id id (security_nodes p))
  in_sections id = ground (
    arith,
    has_id-append id (ci_nodes p ++ infra_nodes p ++ app_nodes p) (security_nodes p),
    has_id-append id (ci_nodes p ++ infra_nodes p) (app_nodes p),
    has_id-append id (ci_nodes p) (infra_nodes p),
  )

  first_of-has_id :
      (o : Option Subgraph)
      → find_subgraph (overview_subgraphs p) (lit "infra") ≡ o
      → (n : FlowNode) → first_of o ≡ some n
      → has_id n.id sections ≡ true
  first_of-has_id none found n e = cc
  first_of-has_id (some sg) found n e =
      let (rest, shape) = first_node-cons sg.nodes n e in
      subst (λ l. has_id n.id l ≡ true) nodes_in-overview
        (find_subgraph-has_id (overview_subgraphs p) (lit "infra") sg n rest found shape)

  abbrev Joins : FlowEdge → Type 0
  Joins e = joins (node_ids sections) e ≡ true

  ci_edges-joined : All Joins (ci_edges p)
  unfolding ci_edges
  ci_edges-joined = All-if Joins (is_nonempty p.ci_jobs) _ (λ jobs. (
    ground (arith, in_sections (lit "ci_pipelines"), in_sections (lit "ci_jobs"), ci_nodes-has_id),
    tt,
  ))

  app_edges-joined : All Joins (app_edges p)
  unfolding app_edges
  app_edges-joined =
      let (to_endpoints, to_entities, to_messaging) = app_nodes-has_id in
      All-append Joins _ _
        (All-if Joins (is_nonempty p.endpoints && is_nonempty p.entities) _ (λ both. (
          ground (
            arith,
            in_sections (lit "app_endpoints"),
            in_sections (lit "app_entities"),
            to_endpoints,
            to_entities,
          ),
          tt,
        )))
        (All-if Joins (is_nonempty p.endpoints && is_nonempty p.topics) _ (λ both. (
          ground (
            arith,
            in_sections (lit "app_endpoints"),
            in_sections (lit "app_messaging"),
            to_endpoints,
            to_messaging,
          ),
          tt,
        )))

  security_edges-joined : All Joins (security_edges p)
  unfolding security_edges
  security_edges-joined = All-if Joins (is_nonempty p.guards && is_nonempty p.endpoints) _ (λ both.
      (
        ground (
          arith,
          in_sections (lit "sec_guards"),
          in_sections (lit "app_endpoints"),
          app_nodes-has_id.0,
          security_nodes-has_id,
        ),
        tt,
      ))

  deploys_edge-joined :
      (source : Text) (o : Option FlowNode)
      → has_id source sections ≡ true
      → ((n : FlowNode) → o ≡ some n → has_id n.id sections ≡ true)
      → All Joins (deploys_edge source o)
  deploys_edge-joined source none from to = tt
  deploys_edge-joined source (some n) from to = (ground (arith, from, to n refl), tt)

  hosts_edge-joined :
      (o : Option FlowNode) (ns : List FlowNode)
      → ((n : FlowNode) → o ≡ some n → has_id n.id sections ≡ true)
      → ((id : Text) → has_id id ns ≡ true → has_id id sections ≡ true)
      → All Joins (hosts_edge o ns)
  hosts_edge-joined none ns from to = tt
  hosts_edge-joined (some n) [] from to = tt
  hosts_edge-joined (some n) (a ∷ ns) from to =
      (ground (arith, from n refl, to a.id, text_beq_iff a.id a.id), tt)

  ci_source-has_id : is_nonempty (ci_nodes p) ≡ true → has_id (ci_source p) sections ≡ true
  ci_source-has_id h = elim (Bool-cases (is_nonempty p.ci_jobs)) [
    | inl jobs ↦ rw jobs (ground (arith, in_sections (lit "ci_jobs"), ci_nodes-has_id))
    | inr none_run ↦ rw none_run (ground (arith, in_sections (lit "ci_pipelines"), ci_nodes-has_id))
  ]

  cross_edges-joined : All Joins (cross_edges p)
  unfolding cross_edges
  cross_edges-joined =
      let found = first_of-has_id (find_subgraph (overview_subgraphs p) (lit "infra")) refl in
      All-append Joins _ _
        (All-if Joins (is_nonempty (ci_nodes p) && is_nonempty p.infra) _ (λ both.
          deploys_edge-joined (ci_source p) (first_infra p) (ci_source-has_id (ground arith))
            found))
        (All-if Joins (is_nonempty p.infra && is_nonempty (app_nodes p)) _ (λ both.
          hosts_edge-joined (first_infra p) (app_nodes p) found (λ id h.
            in_sections id
            ∙ or_third (has_id id (ci_nodes p)) (has_id id (infra_nodes p))
                (has_id id (app_nodes p)) (has_id id (security_nodes p)) h)))

-- No edge of the overview is dangling: all are drawn.
pub build_overview-valid :
    (snap : GraphView) → valid_edges (build_overview snap) ≡ (build_overview snap).edges
unfolding build_overview
build_overview-valid snap =
    let p = parts_of snap in
    valid_edges-All (build_overview snap) refl (
      subst (λ l. All (λ e. joins (node_ids l) e ≡ true) (build_overview snap).edges)
        (sym (nodes_in-overview p))
        (All-append (Joins p) (ci_edges p ++ app_edges p ++ security_edges p) (cross_edges p)
          (All-append (Joins p) (ci_edges p ++ app_edges p) (security_edges p)
            (All-append (Joins p) (ci_edges p) (app_edges p) (ci_edges-joined p)
              (app_edges-joined p))
            (security_edges-joined p))
          (cross_edges-joined p)))
