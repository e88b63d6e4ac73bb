-- ===== src/Flow/Edges/Ci.antt =====
-- The pipeline view never draws the edges from its triggers.
use mathlib.Core.List.{append-nil}
use code_iq.Base.{
  ℕ, suc, ◌≡◌, refl, ap, ◌∙◌, false, List, [], ◌∷◌, ◌++◌, map, keep, keep-append, take, is_nonempty,
  arith, if◌then◌else◌,
}
use code_iq.Base.Text.{Text, text_eq, text_beq, lit}
use code_iq.Base.Groups.{get, group}
use code_iq.Model.Node.{CodeNode}
use code_iq.Flow.Models.{
  FlowNode, joins, node_ids, all_nodes, valid_edges, new_subgraph, new_styled_edge,
}
use code_iq.Flow.Views.{GraphView, sort_by_id}
use code_iq.Model.NodeKind
use code_iq.Flow.Ci.{
  ci_of_kind, workflow_id, job_node, trigger_nodes, workflow_of, workflow_subgraphs, job_edges,
  trigger_edges, build_ci_view,
}
use code_iq.Flow.Edges.{has_id, has_id-append, nodes_in}

-- Nodes none of which has the ID of a workflow's subgraph.
abbrev LacksWorkflows : List FlowNode → Type 0
LacksWorkflows ns = (id : Text) → has_id (workflow_id id) ns ≡ false

append-LacksWorkflows :
    (ns ms : List FlowNode) → LacksWorkflows ns → LacksWorkflows ms → LacksWorkflows (ns ++ ms)
append-LacksWorkflows ns ms h k id =
    ground (arith, has_id-append (workflow_id id) ns ms, h id, k id)

trigger_nodes-LacksWorkflows : (i : ℕ) (ts : List CodeNode) → LacksWorkflows (trigger_nodes i ts)
unfolding trigger_nodes text_beq
trigger_nodes-LacksWorkflows i [] id = refl
trigger_nodes-LacksWorkflows i (t ∷ ts) id = trigger_nodes-LacksWorkflows (suc i) ts id

jobs-LacksWorkflows : (js : List CodeNode) → LacksWorkflows (map job_node js)
unfolding text_beq
jobs-LacksWorkflows [] id = refl
jobs-LacksWorkflows (j ∷ js) id = jobs-LacksWorkflows js id

workflow_subgraphs-LacksWorkflows :
    (wfs jobs : List CodeNode) → LacksWorkflows (nodes_in (workflow_subgraphs wfs jobs))
unfolding workflow_subgraphs
workflow_subgraphs-LacksWorkflows [] jobs id = refl
workflow_subgraphs-LacksWorkflows (wf ∷ wfs) jobs id =
    append-LacksWorkflows (map job_node (take 20 (get wf.id (group workflow_of (λ j. j) jobs))))
      (nodes_in (workflow_subgraphs wfs jobs))
      (jobs-LacksWorkflows (take 20 (get wf.id (group workflow_of (λ j. j) jobs))))
      (workflow_subgraphs-LacksWorkflows wfs jobs) id

workflow_edges-lost :
    (ns : List FlowNode)
    → LacksWorkflows ns
    → (wfs : List CodeNode)
    → keep
        (joins (node_ids ns))
        (map (λ wf. new_styled_edge (lit "trigger_0") (workflow_id wf.id) [] (lit "dotted")) wfs)
      ≡ []
workflow_edges-lost ns h [] = refl
workflow_edges-lost ns h (wf ∷ wfs) = ground (arith, h wf.id, workflow_edges-lost ns h wfs)

trigger_edges-lost :
    (ns : List FlowNode)
    → LacksWorkflows ns
    → (triggers wfs : List CodeNode) → keep (joins (node_ids ns)) (trigger_edges triggers wfs) ≡ []
unfolding trigger_edges
trigger_edges-lost ns h [] wfs = refl
trigger_edges-lost ns h (t ∷ ts) [] = refl
trigger_edges-lost ns h (t ∷ ts) (wf ∷ wfs) = workflow_edges-lost ns h (wf ∷ wfs)

nodes-LacksWorkflows :
    (triggers workflows jobs : List CodeNode)
    → LacksWorkflows (
        nodes_in (
          (if is_nonempty triggers
            then new_subgraph (lit "triggers") (lit "Triggers") (trigger_nodes 0 (take 10 triggers))
              ∷ []
            else [])
          ++ workflow_subgraphs workflows jobs))
unfolding trigger_nodes
nodes-LacksWorkflows [] workflows jobs = workflow_subgraphs-LacksWorkflows workflows jobs
nodes-LacksWorkflows (t ∷ ts) workflows jobs =
    append-LacksWorkflows (trigger_nodes 0 (take 10 (t ∷ ts)))
      (nodes_in (workflow_subgraphs workflows jobs))
      (trigger_nodes-LacksWorkflows 0 (take 10 (t ∷ ts)))
      (workflow_subgraphs-LacksWorkflows workflows jobs)

-- Of the edges of the pipeline view, only those between jobs can be drawn: each edge from a
-- trigger to a workflow is dangling, since the workflow is a subgraph and not a node.
pub build_ci_view-valid :
    (snap : GraphView)
    → valid_edges (build_ci_view snap)
      ≡ keep (joins (node_ids (all_nodes (build_ci_view snap)))) (job_edges snap.edges)
unfolding build_ci_view valid_edges all_nodes
build_ci_view-valid snap =
    let d = build_ci_view snap in
    let workflows = sort_by_id (ci_of_kind NodeKind.module_node snap) in
    let jobs = sort_by_id (ci_of_kind NodeKind.method snap) in
    let triggers = sort_by_id (ci_of_kind NodeKind.config_key snap) in
    keep-append (joins (node_ids (all_nodes d))) (job_edges snap.edges)
      (trigger_edges triggers workflows)
    ∙ (ap (λ l. keep (joins (node_ids (all_nodes d))) (job_edges snap.edges) ++ l)
          (trigger_edges-lost (all_nodes d) (nodes-LacksWorkflows triggers workflows jobs) triggers
            workflows)
        ∙ append-nil (keep (joins (node_ids (all_nodes d))) (job_edges snap.edges)))
