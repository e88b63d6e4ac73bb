-- ===== src/Analyzer/Builder/Contents.antt =====
-- What the snapshot of a run holds, in terms of what the detectors emitted.
use mathlib.Core.List.{Mem}
use mathlib.Core.List.Perm
use mathlib.Core.Logic.Iff
use code_iq.Base.{
  ◌+◌, ◌≡◌, refl, ◌↔◌, inl, inr, Bool, true, false, none, some, List, [], ◌∷◌, map, length, keep,
  contains, arith, ◌==◌, Bool-cases,
}
use code_iq.Base.Text.{Text, text_eq, text_beq_iff}
use code_iq.Base.Assoc.{lookup, has, values}
use code_iq.Base.Assoc.Distinct.{mem-values_iff}
use code_iq.Base.Shuffle.{mem-keep}
use code_iq.Model.Node.{CodeNode, CodeEdge, CodeNode-set, CodeEdge-set}
use code_iq.Analyzer.Merge.{EdgeKey, make_edge_key, edge_key_eq, merge_node, merge_edge}
use code_iq.Analyzer.Builder.{
  Emitted, GraphBuilder, new_graph_builder, VisitOrder, Snapshot, is_attached, take_snapshot, run,
}
use code_iq.Analyzer.Builder.Add.{IsValid, absorb_all, absorb_all-IsValid, new-IsValid}
use code_iq.Analyzer.Builder.Count.{seen-absorb_all}
use code_iq.Analyzer.Builder.Emissions.{
  all_nodes, all_edges, merged, lookup-absorb_all_nodes, lookup-absorb_all_edges,
}
use code_iq.Analyzer.Builder.Run.{snapshot_of, run-snapshot_of}
use code_iq.Analyzer.Builder.Closed.{snapshot_nodes-perm, snapshot_edges-perm, snapshot_counts}

-- Some detector emitted a node with the ID.
abbrev pub emitted : Text → List Emitted → Bool
emitted k rs = contains k (map (λ n. n.id) (all_nodes rs))

some-merged {ℓ} :
    {A : Type ℓ} (merge : A → A → A) (a : A) (xs : List A)
    → (r : A) × (merged merge (some a) xs ≡ some r)
some-merged merge a [] = (a, refl)
some-merged merge a (x ∷ xs) = some-merged merge (merge a x) xs

-- A key has a merge exactly if something was emitted under it.
merged-contains :
    (k : Text) (ns : List CodeNode)
    → (elim (merged merge_node none (keep (λ n. n.id == k) ns)) [ none ↦ false | some n ↦ true ])
      ≡ contains k (map (λ n. n.id) ns)
merged-contains k [] = refl
merged-contains k (n ∷ ns) = elim (Bool-cases (n.id == k)) [
  | inl hit ↦
      let (r, e) = some-merged merge_node n (keep (λ m. m.id == k) ns) in
      ground (arith, text_beq_iff n.id k, text_beq_iff k n.id)
  | inr miss ↦ ground (arith, text_beq_iff n.id k, text_beq_iff k n.id, merged-contains k ns)
]

both_iff {ℓ} : {A B C D : Type ℓ} → A ↔ C → B ↔ D → (A × B) ↔ (C × D)
both_iff h k = (λ (a, b). (h.0 a, k.0 b), λ (c, d). (h.1 c, k.1 d))

module _ (rs : List Emitted) where
  abbrev pub final : GraphBuilder
  final = absorb_all new_graph_builder rs

  pub final-IsValid : IsValid final
  final-IsValid = absorb_all-IsValid rs new_graph_builder new-IsValid

  lookup-final_nodes :
      (k : Text)
      → lookup k final.nodes ≡ merged merge_node none (keep (λ n. n.id == k) (all_nodes rs))
  unfolding lookup
  lookup-final_nodes k = lookup-absorb_all_nodes k rs new_graph_builder

  lookup-final_edges :
      (k : EdgeKey)
      → lookup k final.edges
        ≡ merged merge_edge none (keep (λ e. make_edge_key e == k) (all_edges rs))
  unfolding lookup
  lookup-final_edges k = lookup-absorb_all_edges k rs new_graph_builder

  has-final : (k : Text) → has k final.nodes ≡ emitted k rs
  unfolding has
  has-final k = rw (lookup-final_nodes k, has) (merged-contains k (all_nodes rs))

  -- Every edge that is kept has both endpoints, and the converse.
  attached_iff :
      (e : CodeEdge)
      → (is_attached final.nodes e ≡ true)
        ↔ ((emitted e.source_id rs ≡ true) × (emitted e.target_id rs ≡ true))
  attached_iff e = ground (arith, has-final e.source_id, has-final e.target_id)

  module _ (order : VisitOrder) where
    -- A run returns, and its snapshot holds a node exactly if the node is the merge, in order of
    -- emission, of all nodes that were emitted with its ID.
    pub run-nodes_iff :
        (s : Snapshot) × (run order rs ≡ some s)
        × ((n : CodeNode)
            → Mem n s.nodes
              ↔ (merged merge_node none (keep (λ m. m.id == n.id) (all_nodes rs)) ≡ some n))
    run-nodes_iff = (
      snapshot_of order rs,
      run-snapshot_of order rs,
      λ n. Iff.trans (Perm.mem_iff (snapshot_nodes-perm order final)) (
          Iff.trans
            (mem-values_iff (λ m. m.id) CodeNode-set n final.nodes final-IsValid.node_distinct
              final-IsValid.node_keyed)
            (rw (lookup-final_nodes n.id) (λ h. h, λ h. h))),
    )

    -- A run returns, and its snapshot holds an edge exactly if the edge is the merge, in order of
    -- emission, of all edges that were emitted with its source, target and kind, and nodes with
    -- the IDs of both its endpoints were emitted.
    pub run-edges_iff :
        (s : Snapshot) × (run order rs ≡ some s)
        × ((e : CodeEdge)
            → Mem e s.edges ↔ (
                (merged merge_edge none
                    (keep (λ f. make_edge_key f == make_edge_key e) (all_edges rs))
                  ≡ some e)
                × ((emitted e.source_id rs ≡ true) × (emitted e.target_id rs ≡ true))))
    run-edges_iff = (
      snapshot_of order rs,
      run-snapshot_of order rs,
      λ e. Iff.trans (Perm.mem_iff (snapshot_edges-perm order final)) (
          Iff.trans (mem-keep (is_attached final.nodes) e (values final.edges)) (
            both_iff
              (Iff.trans
                (mem-values_iff make_edge_key CodeEdge-set e final.edges final-IsValid.edge_distinct
                  final-IsValid.edge_keyed)
                (rw (lookup-final_edges (make_edge_key e)) (λ h. h, λ h. h)))
              (attached_iff e))),
    )

    -- The counters of a run add up: each node emission is a node of the snapshot or counted as
    -- deduplicated, and each edge emission is an edge, counted as deduplicated or as dropped.
    pub run-counts :
        (s : Snapshot) × (run order rs ≡ some s)
        × (length s.nodes + s.deduped_nodes ≡ length (all_nodes rs))
        × (length s.edges + s.dropped_edges + s.deduped_edges ≡ length (all_edges rs))
    unfolding take_snapshot
    run-counts =
        let seen = seen-absorb_all rs new_graph_builder in
        let held = snapshot_counts order final in
        (
          snapshot_of order rs,
          run-snapshot_of order rs,
          omega (arith, seen.0, held.0),
          omega (arith, seen.1, held.1),
        )
