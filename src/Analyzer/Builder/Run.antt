-- ===== src/Analyzer/Builder/Run.antt =====
-- A run from a new builder does not panic: it ends in the builder that has absorbed all results.
use mathlib.Core.List.{foldl}
use mathlib.Core.List.Perm
use code_iq.Base.Sort.{sort_by}
use code_iq.Base.{
  Bool, true, ◌≡◌, refl, ◌∙◌, false, none, some, List, [], ◌∷◌, ◌&&◌, if◌then◌else◌, arith,
}
use code_iq.Model.Node.{CodeNode, CodeEdge}
use code_iq.Analyzer.Builder.{
  Emitted, GraphBuilder, new_graph_builder, add_node, add_edge, absorb, add, add_all, write_node,
  write_edge, write_all, split_edges, VisitOrder, Snapshot, take_snapshot, run,
}
use code_iq.Analyzer.Builder.Add.{absorb_all}

nil_maps-add_nodes :
    (ns : List CodeNode) (b : GraphBuilder) → (foldl add_node b ns).nil_maps ≡ b.nil_maps
unfolding add_node
nil_maps-add_nodes [] b = refl
nil_maps-add_nodes (n ∷ ns) b = ground (arith, nil_maps-add_nodes ns (add_node b n))

nil_maps-add_edges :
    (es : List CodeEdge) (b : GraphBuilder) → (foldl add_edge b es).nil_maps ≡ b.nil_maps
unfolding add_edge
nil_maps-add_edges [] b = refl
nil_maps-add_edges (e ∷ es) b = ground (arith, nil_maps-add_edges es (add_edge b e))

nil_maps-absorb : (b : GraphBuilder) (r : Emitted) → (absorb b r).nil_maps ≡ b.nil_maps
unfolding absorb
nil_maps-absorb b r =
    nil_maps-add_edges r.edges (foldl add_node b r.nodes) ∙ nil_maps-add_nodes r.nodes b

if_live : {A : Type 0} (nil : Bool) (x : A) → nil ≡ false → (if nil then none else some x) ≡ some x
if_live nil x live = rw live refl

write_nodes :
    (ns : List CodeNode) (b : GraphBuilder)
    → b.nil_maps ≡ false
    → write_all write_node ns b ≡ some (foldl add_node b ns)
unfolding write_all write_node
write_nodes [] b live = refl
write_nodes (n ∷ ns) b live =
    let first : write_node b n ≡ some (add_node b n) = if_live b.nil_maps (add_node b n) live in
    rw (write_all, first) (write_nodes ns (add_node b n) (nil_maps-add_nodes (n ∷ []) b ∙ live))

write_edges :
    (es : List CodeEdge) (b : GraphBuilder)
    → b.nil_maps ≡ false
    → write_all write_edge es b ≡ some (foldl add_edge b es)
unfolding write_all write_edge
write_edges [] b live = refl
write_edges (e ∷ es) b live =
    let first : write_edge b e ≡ some (add_edge b e) = if_live b.nil_maps (add_edge b e) live in
    rw (write_all, first) (write_edges es (add_edge b e) (nil_maps-add_edges (e ∷ []) b ∙ live))

add-absorb :
    (b : GraphBuilder) (r : Emitted) → b.nil_maps ≡ false → add b (some r) ≡ some (absorb b r)
unfolding add absorb
add-absorb b r live =
    rw (add, write_nodes r.nodes b live)
      (write_edges r.edges (foldl add_node b r.nodes) (nil_maps-add_nodes r.nodes b ∙ live))

add_all-absorb_all :
    (rs : List Emitted) (b : GraphBuilder)
    → b.nil_maps ≡ false
    → add_all b rs ≡ some (absorb_all b rs)
unfolding add_all
add_all-absorb_all [] b live = refl
add_all-absorb_all (r ∷ rs) b live =
    ground (arith, add-absorb b r, nil_maps-absorb b r, add_all-absorb_all rs (absorb b r))

-- The snapshot of a run.
abbrev pub snapshot_of : VisitOrder → List Emitted → Snapshot
snapshot_of order rs = (take_snapshot order (absorb_all new_graph_builder rs)).0

pub run-snapshot_of :
    (order : VisitOrder) (rs : List Emitted) → run order rs ≡ some (snapshot_of order rs)
unfolding run
run-snapshot_of order rs = rw (add_all-absorb_all rs new_graph_builder refl, run)

abbrev pub is_empty {ℓ} : {A : Type ℓ} → List A → Bool
is_empty [] = true
is_empty (x ∷ xs) = false

-- The first write to nil maps panics, wherever it comes.
add_to_nil :
    (b : GraphBuilder) (ns : List CodeNode) (es : List CodeEdge)
    → b.nil_maps ≡ true
    → add b (some (record { nodes = ns; edges = es }))
      ≡ (if is_empty ns && is_empty es then some b else none)
unfolding add write_all write_node write_edge
add_to_nil b [] [] h = refl
add_to_nil b [] (e ∷ es) h = rw h refl
add_to_nil b (n ∷ ns) es h = rw h refl

-- `Snapshot` is single-shot: on the builder that it leaves, a second one is empty, an `Add` of
-- a result with nodes or edges panics, and an `Add` of anything else does nothing.
pub add_after_snapshot :
    (order : VisitOrder) (b : GraphBuilder) (r : Emitted)
    → let after = (take_snapshot order b).1 in
      ((take_snapshot order after).0.nodes ≡ [])
      × ((take_snapshot order after).0.edges ≡ [])
      × (add after none ≡ some after)
      × (add after (some r) ≡ (if is_empty r.nodes && is_empty r.edges then some after else none))
unfolding take_snapshot add sort_by split_edges
add_after_snapshot order b r = (
  rw (Perm.eq-nil (order.nodes-perm [])),
  rw (Perm.eq-nil (order.edges-perm [])),
  refl,
  add_to_nil (take_snapshot order b).1 r.nodes r.edges refl,
)
