-- ===== src/Flow/Views.antt =====
-- The snapshot that the builders read (internal/flow/engine.go), and their helpers.
use code_iq.Base.{
  ℕ, suc, Bool, ◌||◌, Option, none, some, List, [], ◌∷◌, ◌++◌, ◌==◌, keep, flat, take,
  if◌then◌else◌,
}
use code_iq.Base.Text.{Text, text_eq, lit}
use code_iq.Base.Text.Search.{contains_text}
use code_iq.Base.Text.Decimal.{show}
use code_iq.Base.Assoc.{lookup}
use code_iq.Base.Sort.{sort_by}
use code_iq.Model.NodeKind
use code_iq.Model.NodeKind.{NodeKind}
use code_iq.Model.Layer
use code_iq.Model.Node.{CodeNode, CodeEdge, text}
use code_iq.Flow.Models.{FlowValue, property, FlowNode, new_node_with_props, Subgraph}

pub record GraphView : Type 0 where
  pub nodes : List CodeNode
  pub edges : List CodeEdge

-- The index by kind keeps the order of the nodes.
abbrev pub find_by_kind : NodeKind → GraphView → List CodeNode
find_by_kind k snap = keep (λ n. NodeKind.same n.kind k) snap.nodes

unfoldable pub is_ci_node : Text → Bool
unfolding contains_text
is_ci_node id = contains_text (lit "gha:") id || contains_text (lit "gitlab:") id

abbrev pub find_subgraph : List Subgraph → Text → Option Subgraph
find_subgraph [] id = none
find_subgraph (sg ∷ sgs) id = if sg.id == id then some sg else find_subgraph sgs id

abbrev pub sort_by_id : List CodeNode → List CodeNode
sort_by_id = sort_by (λ n. n.id)

-- The properties that are present among the keys, in their order.
abbrev pub copy_props : List Text → CodeNode → List (Text × FlowValue)
copy_props keys n =
    flat (λ key. elim (lookup key n.properties) [ none ↦ [] | some v ↦ (key, property v) ∷ [] ])
      keys

abbrev pub indexed_keys : List Text
indexed_keys =
    lit "kind" ∷ lit "namespace" ∷ lit "image" ∷ lit "resource_type" ∷ lit "provider" ∷ []

-- `prefix_{i}`
abbrev pub indexed_id : Text → ℕ → Text
indexed_id prefix i = prefix ++ lit "_" ++ show i

-- The loop of `makeIndexedNodes`, from an index on.
unfoldable pub index_nodes : Text → ℕ → List CodeNode → List FlowNode
index_nodes prefix i [] = []
index_nodes prefix i (n ∷ ns) =
    new_node_with_props (indexed_id prefix i) n.label prefix (copy_props indexed_keys n)
    ∷ index_nodes prefix (suc i) ns

unfoldable pub make_indexed_nodes : List CodeNode → Text → ℕ → List FlowNode
unfolding index_nodes
make_indexed_nodes nodes prefix max_nodes = index_nodes prefix 0 (take max_nodes nodes)

-- The `layer` property, or the typed layer.
unfoldable pub layer_of : CodeNode → Text
layer_of n = elim (lookup (lit "layer") n.properties) [
  | some (text v) ↦ v
  | _ ↦ Layer.string n.layer
]
