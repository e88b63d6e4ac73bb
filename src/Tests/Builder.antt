-- ===== src/Tests/Builder.antt =====
-- A run of two detector results through the graph builder.
use mathlib.Core.List.{Mem, Perm, Nodup, Pairwise, not-mem-nil}
use code_iq.Base.{
  ◌+◌, ◌≡◌, refl, ap, ◌≢◌, ◌↔◌, true, false, ◌||◌, none, some, [], ◌∷◌, ◌==◌, length, keep,
  contains,
}
use code_iq.Base.Text.{Text, text_eq, text_beq, text_lt, lit}
use code_iq.Base.Assoc.{lookup, insert, has, fill}
use code_iq.Base.Sort.{sort_by, IsSorted, HasDistinctKeys}
use code_iq.Model.Node.{CodeNode, CodeEdge}
use code_iq.Analyzer.Merge.{
  union_sorted, dedupe, absorb_node, absorb_edge, edge_key_beq, merge_node, merge_edge,
  make_edge_key, edge_key_eq,
}
use code_iq.Analyzer.Merge.Annotations.{union_sorted_lem}
use code_iq.Analyzer.Merge.Laws.{
  HoldsBoth, KeepsOwn, merge_node-HoldsBoth, merge_node-KeepsOwn, merge_node_comm,
}
use code_iq.Analyzer.Builder.{
  GraphBuilder, Snapshot, is_attached, absorb, write_all, write_node, write_edge, add_node,
  add_edge, add_all, split_edges, add, take_snapshot, run,
}
use code_iq.Analyzer.Builder.Run.{snapshot_of, add_after_snapshot}
use code_iq.Analyzer.Builder.Emissions.{all_nodes, all_edges, merged}
use code_iq.Analyzer.Builder.Contents.{emitted, run-nodes_iff, run-edges_iff, run-counts}
use code_iq.Analyzer.Builder.Order.{
  in_order, swapped, run-order_free, run-deterministic, shared_id-order,
}
use code_iq.Tests.Samples.{
  user_class, user_resolved, order_class, order_uses_user, order_calls_user, second_result, results,
}

-- The user is merged, the dangling edge is dropped.
run-results :
    run in_order results
    ≡ some (record {
      nodes = order_class ∷ user_resolved ∷ [];
      edges = order_uses_user ∷ [];
      deduped_nodes = 1;
      deduped_edges = 1;
      dropped_edges = 1;
    })
unfolding run add write_all write_node write_edge add_node add_edge lookup insert merge_node
    absorb_node merge_edge absorb_edge union_sorted dedupe sort_by text_lt text_beq fill has
    take_snapshot split_edges edge_key_beq add_all
run-results = refl

run-nodes_iff_example :
    (s : Snapshot) × (run in_order results ≡ some s)
    × ((n : CodeNode)
        → Mem n s.nodes
          ↔ (merged merge_node none (keep (λ m. m.id == n.id) (all_nodes results)) ≡ some n))
run-nodes_iff_example = run-nodes_iff results in_order

run-edges_iff_example :
    (s : Snapshot) × (run in_order results ≡ some s)
    × ((e : CodeEdge)
        → Mem e s.edges ↔ (
            (merged merge_edge none
                (keep (λ f. make_edge_key f == make_edge_key e) (all_edges results))
              ≡ some e)
            × ((emitted e.source_id results ≡ true) × (emitted e.target_id results ≡ true))))
run-edges_iff_example = run-edges_iff results in_order

run-counts_example :
    (s : Snapshot) × (run in_order results ≡ some s)
    × (length s.nodes + s.deduped_nodes ≡ length (all_nodes results))
    × (length s.edges + s.dropped_edges + s.deduped_edges ≡ length (all_edges results))
run-counts_example = run-counts results in_order

run-order_free_example :
    (s t : Snapshot) × (run in_order results ≡ some s)
    × (run swapped results ≡ some t)
    × (s.nodes ≡ t.nodes)
    × IsSorted (λ n. n.id) s.nodes
    × HasDistinctKeys (λ n. n.id) s.nodes
    × Perm s.edges t.edges
    × IsSorted (λ e. e.id) s.edges
run-order_free_example = run-order_free in_order swapped results

union_sorted_lem_example :
    IsSorted (λ s. s) (union_sorted (lit "b" ∷ lit "a" ∷ []) (lit "a" ∷ []))
    × Nodup (union_sorted (lit "b" ∷ lit "a" ∷ []) (lit "a" ∷ []))
    × ((s : Text)
        → contains s (union_sorted (lit "b" ∷ lit "a" ∷ []) (lit "a" ∷ []))
          ≡ (contains s (lit "b" ∷ lit "a" ∷ []) || contains s (lit "a" ∷ [])))
    × (union_sorted (lit "b" ∷ lit "a" ∷ []) (lit "a" ∷ [])
        ≡ union_sorted (lit "a" ∷ []) (lit "b" ∷ lit "a" ∷ []))
union_sorted_lem_example = union_sorted_lem (lit "b" ∷ lit "a" ∷ []) (lit "a" ∷ [])

merge_node-HoldsBoth_example :
    HoldsBoth user_class user_resolved (merge_node user_class user_resolved)
merge_node-HoldsBoth_example = merge_node-HoldsBoth user_class user_resolved

merge_node-KeepsOwn_example : KeepsOwn user_resolved (merge_node user_class user_resolved)
merge_node-KeepsOwn_example = merge_node-KeepsOwn user_class user_resolved

merge_node_comm_example : merge_node user_class user_resolved ≡ merge_node user_resolved user_class
merge_node_comm_example = merge_node_comm user_class user_resolved (λ e. cc e)

snapshot_edges : (snapshot_of in_order results).edges ≡ order_uses_user ∷ []
unfolding run add absorb write_all write_node write_edge add_node add_edge lookup insert merge_node
    absorb_node merge_edge absorb_edge union_sorted dedupe sort_by text_lt text_beq fill has
    take_snapshot split_edges edge_key_beq add_all
snapshot_edges = refl

one_edge : HasDistinctKeys (λ e. e.id) (snapshot_of in_order results).edges
one_edge = rw snapshot_edges (Pairwise.cons (λ b m. absurd (not-mem-nil m)) Pairwise.nil)

run-deterministic_example : run in_order results ≡ run swapped results
run-deterministic_example = run-deterministic in_order swapped results one_edge

-- A builder with two edges of one ID.
abbrev two_edges : GraphBuilder
two_edges = record {
  nodes = (lit "u", user_class) ∷ (lit "o", order_class) ∷ [];
  edges =
      (make_edge_key order_uses_user, order_uses_user)
      ∷ (make_edge_key order_calls_user, order_calls_user)
      ∷ [];
  deduped_nodes = 0;
  deduped_edges = 0;
  nil_maps = false;
}

edges_differ : order_uses_user ≢ order_calls_user
edges_differ e = cc (ap (λ (x : CodeEdge). x.kind) e)

ends_held :
    (is_attached two_edges.nodes order_uses_user ≡ true)
    × (is_attached two_edges.nodes order_calls_user ≡ true)
unfolding has lookup text_beq
ends_held = (refl, refl)

shared_id-order_example :
    ((take_snapshot in_order two_edges).0.edges ≡ order_uses_user ∷ order_calls_user ∷ [])
    × ((take_snapshot swapped two_edges).0.edges ≡ order_calls_user ∷ order_uses_user ∷ [])
    × ((take_snapshot in_order two_edges).0.edges ≢ (take_snapshot swapped two_edges).0.edges)
shared_id-order_example =
    shared_id-order two_edges order_uses_user order_calls_user refl refl edges_differ ends_held.0
      ends_held.1

add_after_snapshot_example :
    ((take_snapshot in_order (take_snapshot in_order two_edges).1).0.nodes ≡ [])
    × ((take_snapshot in_order (take_snapshot in_order two_edges).1).0.edges ≡ [])
    × (add (take_snapshot in_order two_edges).1 none ≡ some (take_snapshot in_order two_edges).1)
    × (add (take_snapshot in_order two_edges).1 (some second_result) ≡ none)
add_after_snapshot_example = add_after_snapshot in_order two_edges second_result
