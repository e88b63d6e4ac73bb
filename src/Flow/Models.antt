-- ===== src/Flow/Models.antt =====
-- internal/flow/models.go: the diagrams.
use code_iq.Base.{
  ℕ, Bool, ◌&&◌, List, [], ◌∷◌, ◌++◌, map, keep, flat, contains, is_nonempty, length, if◌then◌else◌,
}
use code_iq.Base.Text.{Text, text_eq, lit}
use code_iq.Base.Text.Decimal.{show}
use code_iq.Model.Node.{CodeNode, Value}

-- `any`: what the builders put into properties and statistics. A percentage is kept as its two
-- counts; the code rounds their quotient to one decimal in floating point.
pub data FlowValue : Type 0 where
  amount : ℕ → FlowValue
  name : Text → FlowValue
  property : Value → FlowValue
  percentage : ℕ → ℕ → FlowValue

pub record FlowNode : Type 0 where
  pub id : Text
  pub label : Text
  pub kind : Text
  pub style : Text
  pub properties : List (Text × FlowValue)

abbrev pub new_node : Text → Text → Text → FlowNode
new_node id label kind = record {
  id = id;
  label = label;
  kind = kind;
  style = lit "default";
  properties = [];
}

abbrev pub new_node_with_props : Text → Text → Text → List (Text × FlowValue) → FlowNode
new_node_with_props id label kind props = record (new_node id label kind) { properties = props }

abbrev pub new_node_with_style : Text → Text → Text → Text → List (Text × FlowValue) → FlowNode
new_node_with_style id label kind style props = record {
  id = id;
  label = label;
  kind = kind;
  style = style;
  properties = props;
}

pub record FlowEdge : Type 0 where
  pub source : Text
  pub target : Text
  pub label : Text
  pub style : Text

abbrev pub new_styled_edge : Text → Text → Text → Text → FlowEdge
new_styled_edge s t label style = record { source = s; target = t; label = label; style = style }

abbrev pub new_label_edge : Text → Text → Text → FlowEdge
new_label_edge s t label = new_styled_edge s t label (lit "solid")

abbrev pub new_edge : Text → Text → FlowEdge
new_edge s t = new_label_edge s t []

pub record Subgraph : Type 0 where
  pub id : Text
  pub label : Text
  pub nodes : List FlowNode
  pub drill_down_view : Text
  pub parent_view : Text

abbrev pub new_subgraph_with_drill_down : Text → Text → List FlowNode → Text → Subgraph
new_subgraph_with_drill_down id label nodes view = record {
  id = id;
  label = label;
  nodes = nodes;
  drill_down_view = view;
  parent_view = [];
}

abbrev pub new_subgraph : Text → Text → List FlowNode → Subgraph
new_subgraph id label nodes = new_subgraph_with_drill_down id label nodes []

pub record Diagram : Type 0 where
  pub title : Text
  pub view : Text
  pub direction : Text
  pub subgraphs : List Subgraph
  pub loose_nodes : List FlowNode
  pub edges : List FlowEdge
  pub stats : List (Text × FlowValue)

abbrev pub new_diagram : Text → Text → Diagram
new_diagram title view = record {
  title = title;
  view = view;
  direction = lit "LR";
  subgraphs = [];
  loose_nodes = [];
  edges = [];
  stats = [];
}

unfoldable pub all_nodes : Diagram → List FlowNode
all_nodes d = d.loose_nodes ++ flat (λ sg. sg.nodes) d.subgraphs

abbrev pub node_ids : List FlowNode → List Text
node_ids = map (λ n. n.id)

abbrev pub joins : List Text → FlowEdge → Bool
joins ids e = contains e.source ids && contains e.target ids

unfoldable pub valid_edges : Diagram → List FlowEdge
unfolding all_nodes
valid_edges d = let ids = node_ids (all_nodes d) in keep (joins ids) d.edges

-- `"... x%d"` with the count under the key "count".
abbrev pub count_props : List CodeNode → List (Text × FlowValue)
count_props rows = (lit "count", amount (length rows)) ∷ []

abbrev pub counted : Text → Text → Text → List CodeNode → FlowNode
counted id label kind rows =
    new_node_with_props id (label ++ lit " x" ++ show (length rows)) kind (count_props rows)

-- `if len(rows) > 0 { nodes = append(nodes, ...) }`
abbrev pub counted_if_any : Text → Text → Text → List CodeNode → List FlowNode
counted_if_any id label kind rows = if is_nonempty rows then counted id label kind rows ∷ [] else []

abbrev pub subgraph_if_any : Text → Text → List FlowNode → Text → List Subgraph
subgraph_if_any id label nodes view =
    if is_nonempty nodes then new_subgraph_with_drill_down id label nodes view ∷ [] else []
