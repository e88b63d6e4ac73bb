-- ===== src/Model/Node.antt =====
-- internal/model/node.go and edge.go: the nodes and edges of the graph.
use code_iq.Base.{ℕ, Bool, List, []}
use code_iq.Base.Text.{Text}
use code_iq.Model.NodeKind.{NodeKind}
use code_iq.Model.EdgeKind.{EdgeKind}
use code_iq.Model.Layer.{Layer}
use code_iq.Model.Confidence.{Confidence}

-- `any`: the values that the program puts into a property map.
pub data Value : Type 0 where
  text : Text → Value
  number : ℕ → Value
  flag : Bool → Value
  texts : List Text → Value
  null : Value

-- `map[string]any`; a nil map reads like an empty one.
abbrev pub Properties : Type 0
Properties = List (Text × Value)

pub record CodeNode : Type 0 where
  pub id : Text
  pub kind : NodeKind
  pub label : Text
  pub fqn : Text
  pub in_module : Text
  pub file_path : Text
  pub line_start : ℕ
  pub line_end : ℕ
  pub layer : Layer
  pub confidence : Confidence
  pub source : Text
  pub annotations : List Text
  pub properties : Properties

pub record CodeEdge : Type 0 where
  pub id : Text
  pub kind : EdgeKind
  pub source_id : Text
  pub target_id : Text
  pub confidence : Confidence
  pub source : Text
  pub properties : Properties

abbrev pub new_code_node : Text → NodeKind → Text → CodeNode
new_code_node id kind label = record {
  id = id;
  kind = kind;
  label = label;
  fqn = [];
  in_module = [];
  file_path = [];
  line_start = 0;
  line_end = 0;
  layer = Layer.unknown;
  confidence = Confidence.lexical;
  source = [];
  annotations = [];
  properties = [];
}

abbrev pub new_code_edge : Text → EdgeKind → Text → Text → CodeEdge
new_code_edge id kind source_id target_id = record {
  id = id;
  kind = kind;
  source_id = source_id;
  target_id = target_id;
  confidence = Confidence.lexical;
  source = [];
  properties = [];
}

pub CodeNode-set : IsSet CodeNode
CodeNode-set = hlevel

pub CodeEdge-set : IsSet CodeEdge
CodeEdge-set = hlevel
