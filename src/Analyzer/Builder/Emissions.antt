-- ===== src/Analyzer/Builder/Emissions.antt =====
-- What the maps hold after any number of `Add` calls: for each key, the merge of its emissions.
use mathlib.Core.List.{foldl}
use code_iq.Base.{
  ◌≡◌, refl, sym, ◌∙◌, inl, inr, Bool, Option, none, some, List, [], ◌∷◌, ◌++◌, ◌==◌, keep,
  keep-append, arith, if◌then◌else◌, Option-cases, Bool-cases,
}
use code_iq.Base.Text.{Text, text_eq, text_beq_iff}
use code_iq.Base.Assoc.{lookup, lookup-insert}
use code_iq.Model.Node.{CodeNode, CodeEdge}
use code_iq.Analyzer.Merge.{
  EdgeKey, make_edge_key, edge_key_eq, edge_key_beq_iff, merge_node, merge_edge,
}
use code_iq.Analyzer.Builder.{Emitted, GraphBuilder, add_node, add_edge, absorb}
use code_iq.Analyzer.Builder.Add.{absorb_all}

-- All node and edge emissions, in order.
abbrev pub all_nodes : List Emitted → List CodeNode
all_nodes [] = []
all_nodes (r ∷ rs) = r.nodes ++ all_nodes rs

abbrev pub all_edges : List Emitted → List CodeEdge
all_edges [] = []
all_edges (r ∷ rs) = r.edges ++ all_edges rs

-- The first emission, merged with each later one in turn.
abbrev pub merged {ℓ} : {A : Type ℓ} → (A → A → A) → Option A → List A → Option A
merged merge o [] = o
merged merge none (x ∷ xs) = merged merge (some x) xs
merged merge (some a) (x ∷ xs) = merged merge (some (merge a x)) xs

merged-append {ℓ} :
    {A : Type ℓ} (merge : A → A → A) (o : Option A) (xs ys : List A)
    → merged merge o (xs ++ ys) ≡ merged merge (merged merge o xs) ys
merged-append merge none [] ys = refl
merged-append merge (some a) [] ys = refl
merged-append merge none (x ∷ xs) ys = merged-append merge (some x) xs ys
merged-append merge (some a) (x ∷ xs) ys = merged-append merge (some (merge a x)) xs ys

-- A fold whose steps merge the elements that pass a test merges all that pass it.
fold-merged {ℓ} :
    {S A : Type ℓ} (look : S → Option A) (step : S → A → S) (test : A → Bool) (merge : A → A → A)
    → ((s : S) (a : A)
        → look (step s a) ≡ (if test a then merged merge (look s) (a ∷ []) else look s))
    → (xs : List A) (s : S) → look (foldl step s xs) ≡ merged merge (look s) (keep test xs)
fold-merged look step test merge h [] s = refl
fold-merged look step test merge h (x ∷ xs) s =
    fold-merged look step test merge h xs (step s x) ∙ (elim (Bool-cases (test x)) [
      | inl hit ↦ rw (h s x, hit) (sym (merged-append merge (look s) (x ∷ []) (keep test xs)))
      | inr miss ↦ rw (h s x, miss)
    ])

module _ (k : Text) where
  lookup-add_node :
      (b : GraphBuilder) (n : CodeNode)
      → lookup k (add_node b n).nodes
        ≡ (if n.id == k then merged merge_node (lookup k b.nodes) (n ∷ []) else lookup k b.nodes)
  unfolding add_node
  lookup-add_node b n = elim (Option-cases (lookup n.id b.nodes)) [
    | inl new ↦ ground (arith, text_beq_iff n.id k, lookup-insert n.id k n b.nodes)
    | inr (old, found) ↦
        ground (arith, text_beq_iff n.id k, lookup-insert n.id k (merge_node old n) b.nodes)
  ]

  lookup-add_nodes :
      (ns : List CodeNode) (b : GraphBuilder)
      → lookup k (foldl add_node b ns).nodes
        ≡ merged merge_node (lookup k b.nodes) (keep (λ n. n.id == k) ns)
  lookup-add_nodes =
      fold-merged (λ b. lookup k b.nodes) add_node (λ n. n.id == k) merge_node lookup-add_node

module _ (k : EdgeKey) where
  lookup-add_edge :
      (b : GraphBuilder) (e : CodeEdge)
      → lookup k (add_edge b e).edges ≡ (
          if make_edge_key e == k
          then merged merge_edge (lookup k b.edges) (e ∷ [])
          else lookup k b.edges)
  unfolding add_edge
  lookup-add_edge b e = elim (Option-cases (lookup (make_edge_key e) b.edges)) [
    | inl new ↦
        ground
          (arith, edge_key_beq_iff (make_edge_key e) k, lookup-insert (make_edge_key e) k e b.edges)
    | inr (old, found) ↦ ground (
      arith,
      edge_key_beq_iff (make_edge_key e) k,
      lookup-insert (make_edge_key e) k (merge_edge old e) b.edges,
    )
  ]

  lookup-add_edges :
      (es : List CodeEdge) (b : GraphBuilder)
      → lookup k (foldl add_edge b es).edges
        ≡ merged merge_edge (lookup k b.edges) (keep (λ e. make_edge_key e == k) es)
  lookup-add_edges =
      fold-merged (λ b. lookup k b.edges) add_edge (λ e. make_edge_key e == k) merge_edge
        lookup-add_edge

-- Each loop leaves the other map and counter alone.
pub add_edges_nodes :
    (es : List CodeEdge) (b : GraphBuilder)
    → ((foldl add_edge b es).nodes ≡ b.nodes)
      × ((foldl add_edge b es).deduped_nodes ≡ b.deduped_nodes)
unfolding add_edge
add_edges_nodes [] b = (refl, refl)
add_edges_nodes (e ∷ es) b = ground (arith, add_edges_nodes es (add_edge b e))

pub add_nodes_edges :
    (ns : List CodeNode) (b : GraphBuilder)
    → ((foldl add_node b ns).edges ≡ b.edges)
      × ((foldl add_node b ns).deduped_edges ≡ b.deduped_edges)
unfolding add_node
add_nodes_edges [] b = (refl, refl)
add_nodes_edges (n ∷ ns) b = ground (arith, add_nodes_edges ns (add_node b n))

lookup-absorb :
    (b : GraphBuilder) (r : Emitted)
    → ((k : Text)
        → lookup k (absorb b r).nodes
          ≡ merged merge_node (lookup k b.nodes) (keep (λ n. n.id == k) r.nodes))
      × ((k : EdgeKey)
          → lookup k (absorb b r).edges
            ≡ merged merge_edge (lookup k b.edges) (keep (λ e. make_edge_key e == k) r.edges))
unfolding absorb
lookup-absorb b r = (
  λ k. rw (add_edges_nodes r.edges (foldl add_node b r.nodes)).0 (lookup-add_nodes k r.nodes b),
  λ k.
      lookup-add_edges k r.edges (foldl add_node b r.nodes) ∙ rw (add_nodes_edges r.nodes b).0 refl,
)

pub lookup-absorb_all_nodes :
    (k : Text) (rs : List Emitted) (b : GraphBuilder)
    → lookup k (absorb_all b rs).nodes
      ≡ merged merge_node (lookup k b.nodes) (keep (λ n. n.id == k) (all_nodes rs))
lookup-absorb_all_nodes k [] b = refl
lookup-absorb_all_nodes k (r ∷ rs) b =
    lookup-absorb_all_nodes k rs (absorb b r)
    ∙ rw (
      (lookup-absorb b r).0 k,
      keep-append (λ n. n.id == k) r.nodes (all_nodes rs),
      merged-append merge_node (lookup k b.nodes) (keep (λ n. n.id == k) r.nodes)
          (keep (λ n. n.id == k) (all_nodes rs)),
    )

pub lookup-absorb_all_edges :
    (k : EdgeKey) (rs : List Emitted) (b : GraphBuilder)
    → lookup k (absorb_all b rs).edges
      ≡ merged merge_edge (lookup k b.edges) (keep (λ e. make_edge_key e == k) (all_edges rs))
lookup-absorb_all_edges k [] b = refl
lookup-absorb_all_edges k (r ∷ rs) b =
    let hit = λ (e : CodeEdge). make_edge_key e == k in
    lookup-absorb_all_edges k rs (absorb b r)
    ∙ rw (
      (lookup-absorb b r).1 k,
      keep-append hit r.edges (all_edges rs),
      merged-append merge_edge (lookup k b.edges) (keep hit r.edges) (keep hit (all_edges rs)),
    )
