-- ===== src/Flow/Ci.antt =====
-- `buildCIView` of internal/flow/builders.go: workflows, jobs and triggers.
use code_iq.Base.{
  ℕ, suc, Bool, ◌&&◌, List, [], ◌∷◌, ◌++◌, ◌==◌, nat_eq, map, keep, take, is_nonempty, length,
  if◌then◌else◌,
}
use code_iq.Base.Text.{Text, text_eq, text_lt, lit}
use code_iq.Base.Text.Search.{contains_text, before_text, replace_byte}
use code_iq.Base.Groups.{get, group}
use code_iq.Base.Sort.With.{sort_with}
use code_iq.Model.NodeKind
use code_iq.Model.EdgeKind
use code_iq.Model.Node.{CodeNode, CodeEdge}
use code_iq.Flow.Models.{
  amount, name, FlowNode, FlowEdge, Subgraph, Diagram, new_node_with_props, new_label_edge,
  new_styled_edge, new_subgraph, new_diagram,
}
use code_iq.Flow.Views.{GraphView, is_ci_node, sort_by_id, copy_props, indexed_id}

-- The switch on the kind of a pipeline node.
abbrev pub ci_of_kind : NodeKind.NodeKind → GraphView → List CodeNode
ci_of_kind k snap = keep (λ n. is_ci_node n.id && NodeKind.same n.kind k) snap.nodes

-- `strings.ReplaceAll(id, ":", "_")`
abbrev pub underscored : Text → Text
underscored = replace_byte 58 (lit "_")

abbrev pub job_id : Text → Text
job_id id = lit "job_" ++ underscored id

abbrev pub workflow_id : Text → Text
workflow_id id = lit "wf_" ++ underscored id

-- From an index on; the code stops after ten.
unfoldable pub trigger_nodes : ℕ → List CodeNode → List FlowNode
trigger_nodes i [] = []
trigger_nodes i (t ∷ ts) =
    new_node_with_props (indexed_id (lit "trigger") i) t.label (lit "trigger")
      ((lit "source_id", name t.id) ∷ [])
    ∷ trigger_nodes (suc i) ts

-- The workflow of a job: its module, or what its ID says.
unfoldable pub workflow_of : CodeNode → Text
workflow_of j = elim j.in_module [
  | c ∷ s ↦ c ∷ s
  | [] ↦ if contains_text (lit ":job:") j.id then before_text (lit ":job:") j.id else lit "unknown"
]

abbrev pub job_node : CodeNode → FlowNode
job_node j =
    new_node_with_props (job_id j.id) j.label (lit "job")
      (copy_props (lit "stage" ∷ lit "runs_on" ∷ lit "image" ∷ []) j)

unfoldable pub workflow_subgraphs : List CodeNode → List CodeNode → List Subgraph
unfolding workflow_of contains_text before_text replace_byte
workflow_subgraphs workflows jobs =
    let jobs_by_wf = group workflow_of (λ j. j) jobs in
    map
      (λ wf.
        new_subgraph (workflow_id wf.id) wf.label (map job_node (take 20 (get wf.id jobs_by_wf))))
      workflows

-- By source, then by target.
unfoldable pub edge_before : FlowEdge → FlowEdge → Bool
edge_before a b =
    if a.source == b.source then text_lt a.target b.target else text_lt a.source b.source

abbrev pub needs_job : CodeEdge → Bool
needs_job e =
    EdgeKind.same e.kind EdgeKind.depends_on && (is_ci_node e.source_id && is_ci_node e.target_id)

unfoldable pub job_edges : List CodeEdge → List FlowEdge
unfolding edge_before
job_edges es = sort_with edge_before (
    map (λ e. new_label_edge (job_id e.source_id) (job_id e.target_id) (lit "needs"))
      (keep needs_job es))

unfoldable pub trigger_edges : List CodeNode → List CodeNode → List FlowEdge
trigger_edges triggers workflows =
    if is_nonempty triggers && is_nonempty workflows
    then map (λ wf. new_styled_edge (lit "trigger_0") (workflow_id wf.id) [] (lit "dotted"))
        workflows
    else []

unfoldable pub build_ci_view : GraphView → Diagram
unfolding trigger_nodes workflow_subgraphs job_edges trigger_edges
build_ci_view snap =
    let workflows = sort_by_id (ci_of_kind NodeKind.module_node snap) in
    let jobs = sort_by_id (ci_of_kind NodeKind.method snap) in
    let triggers = sort_by_id (ci_of_kind NodeKind.config_key snap) in
    record (new_diagram (lit "CI/CD Pipeline") (lit "ci")) {
      direction = lit "TD";
      subgraphs =
          (if is_nonempty triggers
            then new_subgraph (lit "triggers") (lit "Triggers") (trigger_nodes 0 (take 10 triggers))
              ∷ []
            else [])
          ++ workflow_subgraphs workflows jobs;
      edges = job_edges snap.edges ++ trigger_edges triggers workflows;
      stats =
          (lit "workflows", amount (length workflows))
          ∷ (lit "jobs", amount (length jobs))
          ∷ (lit "triggers", amount (length triggers))
          ∷ [];
    }
