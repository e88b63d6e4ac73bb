-- ===== src/Analyzer/Builder.antt =====
-- internal/analyzer/graph_builder.go. `Snapshot` sets the two maps to nil: after it a write to
-- them panics, which is `none` here. The lock makes each call one step, so calls are a sequence.
-- Go visits a map in any order: the order is an argument of `take_snapshot`.
pub mod Add
pub mod Count
pub mod Emissions
pub mod Run
pub mod Contents
pub mod Order
pub mod Closed
use mathlib.Core.List.{foldl, Perm}
use code_iq.Base.{ℕ, suc, Bool, true, false, ◌&&◌, Option, none, some, List, [], ◌∷◌, if◌then◌else◌}
use code_iq.Base.Text.{Text, text_eq}
use code_iq.Base.Assoc.{lookup, insert, has, values}
use code_iq.Base.Sort.{sort_by}
use code_iq.Model.Node.{CodeNode, CodeEdge}
use code_iq.Analyzer.Merge.{EdgeKey, make_edge_key, edge_key_eq, merge_node, merge_edge}

-- `detector.Result`.
pub record Emitted : Type 0 where
  pub nodes : List CodeNode
  pub edges : List CodeEdge

pub record GraphBuilder : Type 0 where
  pub nodes : List (Text × CodeNode)
  pub edges : List (EdgeKey × CodeEdge)
  pub deduped_nodes : ℕ
  pub deduped_edges : ℕ
  -- Whether both maps are nil.
  pub nil_maps : Bool

abbrev pub new_graph_builder : GraphBuilder
new_graph_builder = record {
  nodes = [];
  edges = [];
  deduped_nodes = 0;
  deduped_edges = 0;
  nil_maps = false;
}

-- The body of the first loop of `Add`.
unfoldable pub add_node : GraphBuilder → CodeNode → GraphBuilder
add_node b n = elim (lookup n.id b.nodes) [
  | none ↦ record b { nodes = insert n.id n b.nodes }
  | some existing ↦ record b {
    nodes = insert n.id (merge_node existing n) b.nodes;
    deduped_nodes = suc b.deduped_nodes;
  }
]

-- The body of the second.
unfoldable pub add_edge : GraphBuilder → CodeEdge → GraphBuilder
add_edge b e = elim (lookup (make_edge_key e) b.edges) [
  | none ↦ record b { edges = insert (make_edge_key e) e b.edges }
  | some existing ↦ record b {
    edges = insert (make_edge_key e) (merge_edge existing e) b.edges;
    deduped_edges = suc b.deduped_edges;
  }
]

-- What the two loops of `Add` do to maps that are not nil.
unfoldable pub absorb : GraphBuilder → Emitted → GraphBuilder
absorb b r = foldl add_edge (foldl add_node b r.nodes) r.edges

-- Both branches of each loop's body write to the map, and a write to a nil map panics: `none`.
unfoldable pub write_node : GraphBuilder → CodeNode → Option GraphBuilder
unfolding add_node
write_node b n = if b.nil_maps then none else some (add_node b n)

unfoldable pub write_edge : GraphBuilder → CodeEdge → Option GraphBuilder
unfolding add_edge
write_edge b e = if b.nil_maps then none else some (add_edge b e)

-- A loop that ends with the first panic.
unfoldable pub write_all :
    {A : Type 0}
    → (GraphBuilder → A → Option GraphBuilder)
    → List A
    → GraphBuilder
    → Option GraphBuilder
write_all write [] b = some b
write_all write (a ∷ rest) b = elim (write b a) [ none ↦ none | some b' ↦ write_all write rest b' ]

-- `Add`: its two loops.
unfoldable pub add : GraphBuilder → Option Emitted → Option GraphBuilder
unfolding write_node write_edge write_all
add b none = some b
add b (some r) = elim (write_all write_node r.nodes b) [
  | none ↦ none
  | some b' ↦ write_all write_edge r.edges b'
]

pub record Snapshot : Type 0 where
  pub nodes : List CodeNode
  pub edges : List CodeEdge
  pub deduped_nodes : ℕ
  pub deduped_edges : ℕ
  pub dropped_edges : ℕ

-- The order in which a run visits the two maps.
pub record VisitOrder : Type 0 where
  pub nodes : List CodeNode → List CodeNode
  pub edges : List CodeEdge → List CodeEdge
  pub nodes-perm : (l : List CodeNode) → Perm (nodes l) l
  pub edges-perm : (l : List CodeEdge) → Perm (edges l) l

-- Both tests of the edge loop of `Snapshot`.
abbrev pub is_attached : List (Text × CodeNode) → CodeEdge → Bool
is_attached nodes e = if has e.source_id nodes then has e.target_id nodes else false

-- The edge loop: the edges appended and the count of those dropped.
unfoldable pub split_edges : List (Text × CodeNode) → List CodeEdge → List CodeEdge × ℕ
split_edges nodes [] = ([], 0)
split_edges nodes (e ∷ es) =
    let (kept, dropped) = split_edges nodes es in
    if is_attached nodes e then (e ∷ kept, dropped) else (kept, suc dropped)

unfoldable pub take_snapshot : VisitOrder → GraphBuilder → Snapshot × GraphBuilder
take_snapshot order b =
    let nodes = order.nodes (values b.nodes) in
    let (edges, dropped) = split_edges b.nodes (order.edges (values b.edges)) in
    (
      record {
        nodes = sort_by (λ n. n.id) nodes;
        edges = sort_by (λ e. e.id) edges;
        deduped_nodes = b.deduped_nodes;
        deduped_edges = b.deduped_edges;
        dropped_edges = dropped;
      },
      record b { nodes = []; edges = []; nil_maps = true },
    )

-- A run of the pipeline: every result is added to a new builder, in order.
unfoldable pub add_all : GraphBuilder → List Emitted → Option GraphBuilder
unfolding add
add_all b [] = some b
add_all b (r ∷ rs) = elim (add b (some r)) [ none ↦ none | some b' ↦ add_all b' rs ]

unfoldable pub run : VisitOrder → List Emitted → Option Snapshot
unfolding add_all take_snapshot
run order rs = elim (add_all new_graph_builder rs) [
  | none ↦ none
  | some b ↦ some (take_snapshot order b).0
]
