-- ===== src/Analyzer/Builder/Closed.antt =====
-- The edges of a snapshot are those whose two endpoints are nodes of it.
use mathlib.Core.List.{Perm}
use mathlib.Core.List.Perm
use code_iq.Base.{◌+◌, ◌≡◌, refl, ◌∙◌, length-map, List, [], ◌∷◌, length, keep, arith}
use code_iq.Base.Text.{Text, text_eq}
use code_iq.Base.Assoc.{values}
use code_iq.Base.Shuffle.{length-perm, keep-perm}
use code_iq.Base.Sort.{sort_by-perm}
use code_iq.Model.Node.{CodeNode, CodeEdge}
use code_iq.Analyzer.Merge.{EdgeKey, edge_key_eq}
use code_iq.Analyzer.Builder.{GraphBuilder, VisitOrder, is_attached, split_edges, take_snapshot}

split_edges_lem :
    (nodes : List (Text × CodeNode)) (es : List CodeEdge)
    → ((split_edges nodes es).0 ≡ keep (is_attached nodes) es)
      × (length (split_edges nodes es).0 + (split_edges nodes es).1 ≡ length es)
unfolding split_edges
split_edges_lem nodes [] = (refl, omega arith)
split_edges_lem nodes (e ∷ es) = ground (arith, split_edges_lem nodes es)

module _ (order : VisitOrder) (b : GraphBuilder) where
  -- What a snapshot holds, up to order.
  pub snapshot_nodes-perm : Perm (take_snapshot order b).0.nodes (values b.nodes)
  unfolding take_snapshot
  snapshot_nodes-perm = Perm.trans (sort_by-perm (λ n. n.id) _) (order.nodes-perm (values b.nodes))

  pub snapshot_edges-perm :
      Perm (take_snapshot order b).0.edges (keep (is_attached b.nodes) (values b.edges))
  unfolding take_snapshot
  snapshot_edges-perm = Perm.trans (sort_by-perm (λ e. e.id) _) (
      rw (split_edges_lem b.nodes (order.edges (values b.edges))).0
        (keep-perm (is_attached b.nodes) (order.edges-perm (values b.edges))))

  -- Kept and dropped edges make up the map.
  pub snapshot_counts :
      (length (take_snapshot order b).0.nodes ≡ length b.nodes)
      × (length (take_snapshot order b).0.edges + (take_snapshot order b).0.dropped_edges
          ≡ length b.edges)
  unfolding take_snapshot
  snapshot_counts =
      let visited = order.edges (values b.edges) in
      (
        length-perm snapshot_nodes-perm ∙ length-map (λ x. x.1) b.nodes,
        omega (
          arith,
          length-perm (sort_by-perm (λ e. e.id) (split_edges b.nodes visited).0),
          (split_edges_lem b.nodes visited).1,
          length-perm (order.edges-perm (values b.edges)),
          length-map (λ (x : EdgeKey × CodeEdge). x.1) b.edges,
        ),
      )
