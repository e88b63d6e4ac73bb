-- ===== src/Analyzer/Builder/Add.antt =====
-- `Add`: the maps stay keyed by their values' own keys, and each emission is counted.
use mathlib.Core.List.{foldl}
use code_iq.Base.{◌≡◌, refl, inl, inr, List, [], ◌∷◌, arith, Option-cases}
use code_iq.Base.Text.{text_eq}
use code_iq.Base.Assoc.{lookup}
use code_iq.Base.Assoc.Distinct.{IsDistinct, IsKeyed, insert-IsDistinct, insert-All, lookup_keyed}
use code_iq.Model.Node.{CodeNode, CodeEdge}
use code_iq.Analyzer.Merge.{
  make_edge_key, edge_key_eq, merge_node, merge_edge, absorb_node, absorb_edge,
}
use code_iq.Analyzer.Builder.{Emitted, GraphBuilder, new_graph_builder, add_node, add_edge, absorb}

pub record IsValid (b : GraphBuilder) : Type 0 where
  pub node_distinct : IsDistinct b.nodes
  pub node_keyed : IsKeyed (λ n. n.id) b.nodes
  pub edge_distinct : IsDistinct b.edges
  pub edge_keyed : IsKeyed make_edge_key b.edges

merge_node_id : (a b : CodeNode) → a.id ≡ b.id → (merge_node a b).id ≡ b.id
unfolding merge_node absorb_node
merge_node_id a b h = ground arith

merge_edge_key :
    (a b : CodeEdge)
    → make_edge_key a ≡ make_edge_key b
    → make_edge_key (merge_edge a b) ≡ make_edge_key b
unfolding merge_edge absorb_edge
merge_edge_key a b h = ground arith

add_node-IsValid : (b : GraphBuilder) (n : CodeNode) → IsValid b → IsValid (add_node b n)
unfolding add_node
add_node-IsValid b n h = elim (Option-cases (lookup n.id b.nodes)) [
  | inl new ↦
      rw (new, add_node)
        (record {
          node_distinct = insert-IsDistinct n.id n b.nodes h.node_distinct;
          node_keyed = insert-All (λ k v. v.id ≡ k) n.id n b.nodes refl h.node_keyed;
          edge_distinct = h.edge_distinct;
          edge_keyed = h.edge_keyed;
        })
  | inr (old, found) ↦
      rw (found, add_node)
        (record {
          node_distinct = insert-IsDistinct n.id (merge_node old n) b.nodes h.node_distinct;
          node_keyed =
              insert-All (λ k v. v.id ≡ k) n.id (merge_node old n) b.nodes
                (merge_node_id old n (lookup_keyed (λ m. m.id) n.id old b.nodes h.node_keyed found))
                h.node_keyed;
          edge_distinct = h.edge_distinct;
          edge_keyed = h.edge_keyed;
        })
]

add_edge-IsValid : (b : GraphBuilder) (e : CodeEdge) → IsValid b → IsValid (add_edge b e)
unfolding add_edge
add_edge-IsValid b e h =
    let k = make_edge_key e in
    elim (Option-cases (lookup k b.edges)) [
      | inl new ↦
          rw (new, add_edge)
            (record {
              node_distinct = h.node_distinct;
              node_keyed = h.node_keyed;
              edge_distinct = insert-IsDistinct k e b.edges h.edge_distinct;
              edge_keyed = insert-All (λ j v. make_edge_key v ≡ j) k e b.edges refl h.edge_keyed;
            })
      | inr (old, found) ↦
          rw (found, add_edge)
            (record {
              node_distinct = h.node_distinct;
              node_keyed = h.node_keyed;
              edge_distinct = insert-IsDistinct k (merge_edge old e) b.edges h.edge_distinct;
              edge_keyed =
                  insert-All (λ j v. make_edge_key v ≡ j) k (merge_edge old e) b.edges
                    (merge_edge_key old e
                      (lookup_keyed make_edge_key k old b.edges h.edge_keyed found))
                    h.edge_keyed;
            })
    ]

add_nodes-IsValid :
    (ns : List CodeNode) (b : GraphBuilder) → IsValid b → IsValid (foldl add_node b ns)
add_nodes-IsValid [] b h = h
add_nodes-IsValid (n ∷ ns) b h = add_nodes-IsValid ns (add_node b n) (add_node-IsValid b n h)

add_edges-IsValid :
    (es : List CodeEdge) (b : GraphBuilder) → IsValid b → IsValid (foldl add_edge b es)
add_edges-IsValid [] b h = h
add_edges-IsValid (e ∷ es) b h = add_edges-IsValid es (add_edge b e) (add_edge-IsValid b e h)

-- On a builder whose two maps are keyed by their values' own keys, with one entry for a key, the
-- loops of `Add` keep them so.
pub absorb-IsValid : (b : GraphBuilder) (r : Emitted) → IsValid b → IsValid (absorb b r)
unfolding absorb
absorb-IsValid b r h =
    add_edges-IsValid r.edges (foldl add_node b r.nodes) (add_nodes-IsValid r.nodes b h)

-- The builder after all results, with no panic on the way.
abbrev pub absorb_all : GraphBuilder → List Emitted → GraphBuilder
absorb_all = foldl absorb

pub absorb_all-IsValid :
    (rs : List Emitted) (b : GraphBuilder) → IsValid b → IsValid (absorb_all b rs)
absorb_all-IsValid [] b h = h
absorb_all-IsValid (r ∷ rs) b h = absorb_all-IsValid rs (absorb b r) (absorb-IsValid b r h)

pub new-IsValid : IsValid new_graph_builder
new-IsValid = record { node_distinct = tt; node_keyed = tt; edge_distinct = tt; edge_keyed = tt }
