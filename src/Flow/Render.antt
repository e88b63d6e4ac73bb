-- ===== src/Flow/Render.antt =====
-- internal/flow/renderer.go: the diagrams as Mermaid and as DOT text.
use code_iq.Base.{
  not, ◌&&◌, ◌||◌, Option, none, some, List, [], ◌++◌, ◌==◌, nat_eq, flat, is_nonempty,
  if◌then◌else◌,
}
use code_iq.Base.Text.{Text, text_eq, lit, to_lower, trim_space, has_prefix}
use code_iq.Base.Assoc.{lookup}
use code_iq.Base.Sort.{sort_by}
use code_iq.Base.Sort.With.{sort_with}
use code_iq.Flow.Models.{FlowNode, FlowEdge, Subgraph, Diagram, valid_edges}
use code_iq.Flow.Ci.{edge_before}
use code_iq.Flow.Labels.{
  newline, quote, shape_brackets, edge_arrow, style_suffix, sanitize_id, escape_label,
  escape_dot_label, dot_style_attr, dot_edge_style, trim_prefix, or_default,
}

-- `fmt.Fprintf` of a Mermaid node.
unfoldable pub mermaid_node : Text → FlowNode → Text
unfolding escape_label sanitize_id
mermaid_node indent n =
    let brackets = or_default (lit "[", lit "]") (lookup n.kind shape_brackets) in
    indent
    ++ sanitize_id n.id
    ++ brackets.0
    ++ quote
    ++ escape_label n.label
    ++ quote
    ++ brackets.1
    ++ or_default [] (lookup n.style style_suffix)
    ++ newline

unfoldable pub mermaid_subgraph : Subgraph → Text
unfolding mermaid_node
mermaid_subgraph sg =
    lit "    subgraph "
    ++ sanitize_id sg.id
    ++ lit "["
    ++ quote
    ++ escape_label sg.label
    ++ quote
    ++ lit "]"
    ++ newline
    ++ flat (mermaid_node (lit "        ")) (sort_by (λ n. n.id) sg.nodes)
    ++ lit "    end"
    ++ newline
    ++ newline

-- An arrow that the table does not have is the solid one.
abbrev pub arrow_of : Text → Text
arrow_of style = or_default (lit "-->") (lookup style edge_arrow)

unfoldable pub mermaid_edge : FlowEdge → Text
unfolding escape_label sanitize_id
mermaid_edge e =
    if is_nonempty e.label
    then lit "    "
      ++ sanitize_id e.source
      ++ lit " "
      ++ arrow_of e.style
      ++ lit "|"
      ++ escape_label e.label
      ++ lit "| "
      ++ sanitize_id e.target
      ++ newline
    else lit "    "
      ++ sanitize_id e.source
      ++ lit " "
      ++ arrow_of e.style
      ++ lit " "
      ++ sanitize_id e.target
      ++ newline

-- The valid edges, by source and then by target.
abbrev pub sorted_edges : Diagram → List FlowEdge
sorted_edges d = sort_with edge_before (valid_edges d)

abbrev pub direction_of : Diagram → Text
direction_of d = if is_nonempty d.direction then d.direction else lit "LR"

abbrev pub class_defs : Text
class_defs =
    lit "    classDef success fill:#d4edda,stroke:#28a745,color:#155724"
    ++ newline
    ++ lit "    classDef warning fill:#fff3cd,stroke:#ffc107,color:#856404"
    ++ newline
    ++ lit "    classDef danger fill:#f8d7da,stroke:#dc3545,color:#721c24"
    ++ newline
    ++ newline

unfoldable pub render_mermaid : Diagram → Text
unfolding mermaid_subgraph mermaid_edge
render_mermaid d =
    lit "graph "
    ++ direction_of d
    ++ newline
    ++ class_defs
    ++ flat mermaid_subgraph d.subgraphs
    ++ flat (mermaid_node (lit "    ")) (sort_by (λ n. n.id) d.loose_nodes)
    ++ newline
    ++ flat mermaid_edge (sorted_edges d)

abbrev pub quoted_label : Text → Text
quoted_label label = lit "label=" ++ quote ++ escape_dot_label label ++ quote

unfoldable pub dot_node : Text → FlowNode → Text
unfolding escape_dot_label sanitize_id
dot_node indent n =
    indent
    ++ sanitize_id n.id
    ++ lit " ["
    ++ quoted_label n.label
    ++ dot_style_attr n.style
    ++ lit "];"
    ++ newline

unfoldable pub dot_subgraph : Subgraph → Text
unfolding dot_node
dot_subgraph sg =
    lit "    subgraph cluster_"
    ++ sanitize_id sg.id
    ++ lit " {"
    ++ newline
    ++ lit "        "
    ++ quoted_label sg.label
    ++ lit ";"
    ++ newline
    ++ flat (dot_node (lit "        ")) (sort_by (λ n. n.id) sg.nodes)
    ++ lit "    }"
    ++ newline

unfoldable pub dot_extras : FlowEdge → Text
unfolding escape_dot_label has_prefix
dot_extras e =
    if is_nonempty e.label
    then lit " [" ++ quoted_label e.label ++ dot_edge_style e.style ++ lit "]"
    else if is_nonempty e.style && not (e.style == lit "solid")
    then lit " [" ++ trim_prefix (dot_edge_style e.style) (lit ", ") ++ lit "]"
    else []

unfoldable pub dot_edge : FlowEdge → Text
unfolding dot_extras sanitize_id
dot_edge e =
    lit "    "
    ++ sanitize_id e.source
    ++ lit " -> "
    ++ sanitize_id e.target
    ++ dot_extras e
    ++ lit ";"
    ++ newline

unfoldable pub render_dot : Diagram → Text
unfolding dot_subgraph dot_edge
render_dot d =
    let edges = sorted_edges d in
    lit "digraph G {"
    ++ newline
    ++ lit "    rankdir="
    ++ direction_of d
    ++ lit ";"
    ++ newline
    ++ lit "    node [shape=box, fontname="
    ++ quote
    ++ lit "Helvetica"
    ++ quote
    ++ lit "];"
    ++ newline
    ++ newline
    ++ flat dot_subgraph d.subgraphs
    ++ flat (dot_node (lit "    ")) (sort_by (λ n. n.id) d.loose_nodes)
    ++ (if is_nonempty edges then newline else [])
    ++ flat dot_edge edges
    ++ lit "}"
    ++ newline

-- `Render`; JSON and YAML are written by other libraries, and are arguments here.
unfoldable pub render : (Diagram → Text) → (Diagram → Text) → Diagram → Text → Option Text
unfolding render_mermaid render_dot
render render_json render_yaml d format =
    let f = to_lower (trim_space format) in
    if f == [] || f == lit "json"
    then some (render_json d)
    else if f == lit "mermaid"
    then some (render_mermaid d)
    else if f == lit "dot"
    then some (render_dot d)
    else if f == lit "yaml" || f == lit "yml"
    then some (render_yaml d)
    else none
