-- ===== src/Analyzer/Builder/Order.antt =====
-- How much of a snapshot depends on the order in which Go visits the maps.
use mathlib.Core.List.{Perm}
use mathlib.Core.List.Perm
use code_iq.Base.{◌≡◌, refl, sym, ap, ◌≢◌, ◌∙◌, true, some, List, [], ◌∷◌, length, arith}
use code_iq.Base.Text.{Text, text_eq, text_lt_irrefl}
use code_iq.Base.Assoc.{values}
use code_iq.Base.Assoc.Distinct.{values-distinct}
use code_iq.Base.Sort.{
  sort_by, sort_by-IsSorted, IsSorted, HasDistinctKeys, HasDistinctKeys-perm, IsSorted-eq_of_perm,
}
use code_iq.Model.Node.{CodeNode, CodeEdge, CodeNode-set, CodeEdge-set}
use code_iq.Analyzer.Builder.{
  Emitted, GraphBuilder, VisitOrder, Snapshot, is_attached, split_edges, take_snapshot, run,
}
use code_iq.Analyzer.Builder.Add.{IsValid}
use code_iq.Analyzer.Builder.Run.{snapshot_of, run-snapshot_of}
use code_iq.Analyzer.Builder.Closed.{snapshot_nodes-perm, snapshot_edges-perm, snapshot_counts}
use code_iq.Analyzer.Builder.Contents.{final, final-IsValid}

module _ (order : VisitOrder) (b : GraphBuilder) where
  pub snapshot-IsSorted :
      IsSorted (λ n. n.id) (take_snapshot order b).0.nodes
      × IsSorted (λ e. e.id) (take_snapshot order b).0.edges
  unfolding take_snapshot
  snapshot-IsSorted = (sort_by-IsSorted (λ n. n.id) _, sort_by-IsSorted (λ e. e.id) _)

  pub snapshot-distinct : IsValid b → HasDistinctKeys (λ n. n.id) (take_snapshot order b).0.nodes
  snapshot-distinct h =
      HasDistinctKeys-perm (λ n. n.id) (Perm.symm (snapshot_nodes-perm order b))
        (values-distinct (λ n. n.id) b.nodes h.node_distinct h.node_keyed)

module _ (o p : VisitOrder) (b : GraphBuilder) (h : IsValid b) where
  nodes_agree : (take_snapshot o b).0.nodes ≡ (take_snapshot p b).0.nodes
  nodes_agree =
      IsSorted-eq_of_perm (λ n. n.id) CodeNode-set (snapshot-IsSorted o b).0
        (snapshot-IsSorted p b).0 (snapshot-distinct o b h)
        (Perm.trans (snapshot_nodes-perm o b) (Perm.symm (snapshot_nodes-perm p b)))

  edges_perm : Perm (take_snapshot o b).0.edges (take_snapshot p b).0.edges
  edges_perm = Perm.trans (snapshot_edges-perm o b) (Perm.symm (snapshot_edges-perm p b))

  edges_agree :
      HasDistinctKeys (λ e. e.id) (take_snapshot o b).0.edges
      → (take_snapshot o b).0.edges ≡ (take_snapshot p b).0.edges
  edges_agree d =
      IsSorted-eq_of_perm (λ e. e.id) CodeEdge-set (snapshot-IsSorted o b).1
        (snapshot-IsSorted p b).1 d edges_perm

-- Whatever the orders in which two runs visit their maps, they return the same nodes, ascending
-- by ID with no ID twice, and edges that are permutations of one another, ascending by ID.
pub run-order_free :
    (o p : VisitOrder) (rs : List Emitted)
    → (s t : Snapshot) × (run o rs ≡ some s)
      × (run p rs ≡ some t)
      × (s.nodes ≡ t.nodes)
      × IsSorted (λ n. n.id) s.nodes
      × HasDistinctKeys (λ n. n.id) s.nodes
      × Perm s.edges t.edges
      × IsSorted (λ e. e.id) s.edges
run-order_free o p rs =
    let b = final rs in
    let h = final-IsValid rs in
    (
      snapshot_of o rs,
      snapshot_of p rs,
      run-snapshot_of o rs,
      run-snapshot_of p rs,
      nodes_agree o p b h,
      (snapshot-IsSorted o b).0,
      snapshot-distinct o b h,
      edges_perm o p b h,
      (snapshot-IsSorted o b).1,
    )

snapshot_ext :
    (s t : Snapshot)
    → s.nodes ≡ t.nodes
    → s.edges ≡ t.edges
    → s.deduped_nodes ≡ t.deduped_nodes
    → s.deduped_edges ≡ t.deduped_edges
    → s.dropped_edges ≡ t.dropped_edges
    → s ≡ t
snapshot_ext s t n e dn de dr = cc

-- If no two edges of the snapshot share an ID, a run returns one and the same snapshot, with all
-- its lists and counters, in whatever order it visits the maps.
pub run-deterministic :
    (o p : VisitOrder) (rs : List Emitted)
    → HasDistinctKeys (λ e. e.id) (snapshot_of o rs).edges
    → run o rs ≡ run p rs
unfolding take_snapshot
run-deterministic o p rs d =
    let b = final rs in
    let h = final-IsValid rs in
    let edges = edges_agree o p b h d in
    let same =
      snapshot_ext (snapshot_of o rs) (snapshot_of p rs) (nodes_agree o p b h) edges refl refl
        (omega (arith, ap length edges, (snapshot_counts o b).1, (snapshot_counts p b).1)) in
    run-snapshot_of o rs ∙ (ap some same ∙ sym (run-snapshot_of p rs))

-- The orders of insertion and its reverse, for a map of two entries.
abbrev swap_two {ℓ} : {A : Type ℓ} → List A → List A
swap_two (x ∷ y ∷ []) = y ∷ x ∷ []
swap_two l = l

pub swap_two-perm {ℓ} : {A : Type ℓ} (l : List A) → Perm (swap_two l) l
swap_two-perm [] = Perm.refl []
swap_two-perm (x ∷ []) = Perm.refl (x ∷ [])
swap_two-perm (x ∷ y ∷ []) = Perm.swap x y []
swap_two-perm (x ∷ y ∷ z ∷ l) = Perm.refl (x ∷ y ∷ z ∷ l)

abbrev pub in_order : VisitOrder
in_order = record { nodes = λ l. l; edges = λ l. l; nodes-perm = Perm.refl; edges-perm = Perm.refl }

abbrev pub swapped : VisitOrder
swapped = record in_order { edges = swap_two; edges-perm = swap_two-perm }

sort_two : (e f : CodeEdge) → e.id ≡ f.id → sort_by (λ x. x.id) (e ∷ f ∷ []) ≡ e ∷ f ∷ []
unfolding sort_by
sort_two e f same = ground (arith, text_lt_irrefl e.id)

split_two :
    (nodes : List (Text × CodeNode)) (e f : CodeEdge)
    → is_attached nodes e ≡ true
    → is_attached nodes f ≡ true
    → (split_edges nodes (e ∷ f ∷ [])).0 ≡ e ∷ f ∷ []
unfolding split_edges
split_two nodes e f he hf = rw (he, hf)

-- Two edges that share an ID come out in the order of the visit: if the edge map holds just two
-- edges, both with their endpoints, under one ID, then two visit orders of the same builder give
-- two different snapshots.
pub shared_id-order :
    (b : GraphBuilder) (e f : CodeEdge)
    → values b.edges ≡ e ∷ f ∷ []
    → e.id ≡ f.id
    → e ≢ f
    → is_attached b.nodes e ≡ true
    → is_attached b.nodes f ≡ true
    → ((take_snapshot in_order b).0.edges ≡ e ∷ f ∷ [])
      × ((take_snapshot swapped b).0.edges ≡ f ∷ e ∷ [])
      × ((take_snapshot in_order b).0.edges ≢ (take_snapshot swapped b).0.edges)
unfolding take_snapshot
shared_id-order b e f held same differ he hf =
    let first : (take_snapshot in_order b).0.edges ≡ e ∷ f ∷ [] =
      rw (held, split_two b.nodes e f he hf) (sort_two e f same) in
    let second : (take_snapshot swapped b).0.edges ≡ f ∷ e ∷ [] =
      rw (held, split_two b.nodes f e hf he) (sort_two f e (sym same)) in
    (first, second, λ eq. differ (cc (first, second, eq)))
