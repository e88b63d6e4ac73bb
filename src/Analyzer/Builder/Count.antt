-- ===== src/Analyzer/Builder/Count.antt =====
-- The counters of the builder: each emission either adds an entry or is counted as a duplicate.
use mathlib.Core.List.{foldl}
use code_iq.Base.{
  ℕ, suc, ◌+◌, ◌≡◌, ap, inl, inr, List, [], ◌∷◌, length, length-append, arith, Option-cases,
}
use code_iq.Base.Text.{text_eq}
use code_iq.Base.Assoc.{lookup, has, length-insert}
use code_iq.Model.Node.{CodeNode, CodeEdge}
use code_iq.Analyzer.Merge.{make_edge_key, edge_key_eq, merge_node, merge_edge}
use code_iq.Analyzer.Builder.{Emitted, GraphBuilder, add_node, add_edge, absorb}
use code_iq.Analyzer.Builder.Add.{absorb_all}
use code_iq.Analyzer.Builder.Emissions.{all_nodes, all_edges, add_edges_nodes, add_nodes_edges}

abbrev pub seen_nodes : GraphBuilder → ℕ
seen_nodes b = length b.nodes + b.deduped_nodes

abbrev pub seen_edges : GraphBuilder → ℕ
seen_edges b = length b.edges + b.deduped_edges

seen-add_node : (b : GraphBuilder) (n : CodeNode) → seen_nodes (add_node b n) ≡ suc (seen_nodes b)
unfolding add_node has
seen-add_node b n = elim (Option-cases (lookup n.id b.nodes)) [
  | inl new ↦ ground (arith, length-insert n.id n b.nodes)
  | inr (old, found) ↦ ground (arith, length-insert n.id (merge_node old n) b.nodes)
]

seen-add_edge : (b : GraphBuilder) (e : CodeEdge) → seen_edges (add_edge b e) ≡ suc (seen_edges b)
unfolding add_edge has
seen-add_edge b e = elim (Option-cases (lookup (make_edge_key e) b.edges)) [
  | inl new ↦ ground (arith, length-insert (make_edge_key e) e b.edges)
  | inr (old, found) ↦ ground (arith, length-insert (make_edge_key e) (merge_edge old e) b.edges)
]

seen-add_nodes :
    (ns : List CodeNode) (b : GraphBuilder)
    → seen_nodes (foldl add_node b ns) ≡ seen_nodes b + length ns
seen-add_nodes [] b = omega arith
seen-add_nodes (n ∷ ns) b = omega (arith, seen-add_nodes ns (add_node b n), seen-add_node b n)

seen-add_edges :
    (es : List CodeEdge) (b : GraphBuilder)
    → seen_edges (foldl add_edge b es) ≡ seen_edges b + length es
seen-add_edges [] b = omega arith
seen-add_edges (e ∷ es) b = omega (arith, seen-add_edges es (add_edge b e), seen-add_edge b e)

seen-absorb :
    (b : GraphBuilder) (r : Emitted)
    → (seen_nodes (absorb b r) ≡ seen_nodes b + length r.nodes)
      × (seen_edges (absorb b r) ≡ seen_edges b + length r.edges)
unfolding absorb
seen-absorb b r = (
  rw
      (
        (add_edges_nodes r.edges (foldl add_node b r.nodes)).0,
        (add_edges_nodes r.edges (foldl add_node b r.nodes)).1,
      )
      (seen-add_nodes r.nodes b),
  omega (
    arith,
    seen-add_edges r.edges (foldl add_node b r.nodes),
    ap length (add_nodes_edges r.nodes b).0,
    (add_nodes_edges r.nodes b).1,
  ),
)

-- After any results each map's size and its duplicates add up to the emissions.
pub seen-absorb_all :
    (rs : List Emitted) (b : GraphBuilder)
    → (seen_nodes (absorb_all b rs) ≡ seen_nodes b + length (all_nodes rs))
      × (seen_edges (absorb_all b rs) ≡ seen_edges b + length (all_edges rs))
seen-absorb_all [] b = (omega arith, omega arith)
seen-absorb_all (r ∷ rs) b =
    let here = seen-absorb b r in
    let later = seen-absorb_all rs (absorb b r) in
    (
      omega (arith, length-append r.nodes (all_nodes rs)),
      omega (arith, length-append r.edges (all_edges rs)),
    )
