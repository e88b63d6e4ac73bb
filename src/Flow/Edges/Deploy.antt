-- ===== src/Flow/Edges/Deploy.antt =====
-- The deployment view draws all of its edges where no group is cut short.
use code_iq.Base.{
  ℕ, zero, suc, ◌+◌, ◌≤◌, ◌≡◌, refl, sym, ap, subst, ◌∙◌, inl, inr, Bool, true, false, not, ◌&&◌,
  ◌||◌, none, some, List, [], ◌∷◌, ◌++◌, ◌==◌, map, keep, take, flat, contains, contains-map-append,
  any, length, All, arith, Bool-cases,
}
use code_iq.Base.Text.{Text, text_eq, text_beq_iff}
use code_iq.Model.Node.{CodeNode}
use code_iq.Flow.Models.{FlowNode}
use code_iq.Flow.Views.{indexed_id, index_nodes, make_indexed_nodes}
use code_iq.Flow.Deploy.{groups_of, index_of, resolve_in, prefixed, place_id}
use code_iq.Flow.Edges.{has_id, has_id-left, has_id-right}

abbrev pub has_node : Text → List CodeNode → Bool
has_node id ns = contains id (map (λ n. n.id) ns)

or_right : (a b : Bool) → b ≡ true → (a || b) ≡ true
or_right a b h = ground arith

-- A node that is there has an index, and the node of that index is drawn.
index_nodes-has_id :
    (prefix id : Text) (k : ℕ) (ns : List CodeNode)
    → has_node id ns ≡ true
    → (i : ℕ) × (index_of ns id ≡ some i)
      × (has_id (indexed_id prefix (k + i)) (index_nodes prefix k ns) ≡ true)
unfolding index_of index_nodes
index_nodes-has_id prefix id k [] h = cc
index_nodes-has_id prefix id k (n ∷ ns) h = elim (Bool-cases (n.id == id)) [
  | inl here ↦ (
    0,
    rw here refl,
    (let start : k + 0 ≡ k = omega arith in
        rw start (ground (arith, text_beq_iff (indexed_id prefix k) (indexed_id prefix k)))),
  )
  | inr other ↦
      let (i, at, drawn) =
        index_nodes-has_id prefix id (suc k) ns
          (ground (arith, text_beq_iff id n.id, text_beq_iff n.id id)) in
      (
        suc i,
        rw (other, at) refl,
        (let next : suc k + i ≡ k + suc i = omega arith in
            subst (λ j. has_id (indexed_id prefix j) (index_nodes prefix k (n ∷ ns)) ≡ true) next
              (or_right (indexed_id prefix (suc k + i) == indexed_id prefix k)
                (has_id (indexed_id prefix (suc k + i)) (index_nodes prefix (suc k) ns)) drawn)),
      )
]

-- The nodes that are drawn for the groups.
abbrev pub drawn_nodes : List (Text × List CodeNode) → List FlowNode
drawn_nodes = flat (λ row. make_indexed_nodes row.1 row.0 20)

-- No group is cut short.
abbrev pub Fits : List (Text × List CodeNode) → Type 0
Fits = All (λ row. length row.1 ≤ 20)

take-all : {A : Type 0} (n : ℕ) (xs : List A) → length xs ≤ n → take n xs ≡ xs
take-all zero [] h = refl
take-all zero (x ∷ xs) h = absurd (omega (arith, h))
take-all (suc n) [] h = refl
take-all (suc n) (x ∷ xs) h = ap (λ l. x ∷ l) (take-all n xs (omega (arith, h)))

index_of-absent : (ns : List CodeNode) (id : Text) → has_node id ns ≡ false → index_of ns id ≡ none
unfolding index_of
index_of-absent [] id h = refl
index_of-absent (n ∷ ns) id h =
    ground (arith, text_beq_iff id n.id, text_beq_iff n.id id, index_of-absent ns id)

pub resolve_in-has_id :
    (rows : List (Text × List CodeNode)) (id : Text)
    → Fits rows
    → any (λ row. has_node id row.1) rows ≡ true
    → has_id (place_id (resolve_in rows id)) (drawn_nodes rows) ≡ true
unfolding resolve_in make_indexed_nodes
resolve_in-has_id [] id fits h = cc
resolve_in-has_id ((prefix, ns) ∷ rows) id fits h = elim (Bool-cases (has_node id ns)) [
  | inl here ↦
      let (i, at, drawn) = index_nodes-has_id prefix id 0 ns here in
      let start : 0 + i ≡ i = omega arith in
      rw (resolve_in, at)
        (has_id-left (indexed_id prefix i) (make_indexed_nodes ns prefix 20) (drawn_nodes rows) (
          subst (λ l. has_id (indexed_id prefix i) (index_nodes prefix 0 l) ≡ true)
            (sym (take-all 20 ns fits.0))
            (subst (λ j. has_id (indexed_id prefix j) (index_nodes prefix 0 ns) ≡ true) start
              drawn)))
  | inr other ↦
      rw (resolve_in, index_of-absent ns id other)
        (has_id-right (place_id (resolve_in rows id)) (make_indexed_nodes ns prefix 20)
          (drawn_nodes rows) (resolve_in-has_id rows id fits.1 (ground arith)))
]

keep-has_node :
    (id : Text) (gs : List Text) (ns : List CodeNode)
    → has_node id (keep (λ n. not (contains n.id gs)) ns) ≡ (has_node id ns && not (contains id gs))
keep-has_node id gs [] = refl
keep-has_node id gs (n ∷ ns) =
    ground (arith, text_beq_iff id n.id, text_beq_iff n.id id, keep-has_node id gs ns)

has_node-append :
    (id : Text) (ns ms : List CodeNode)
    → has_node id (ns ++ ms) ≡ (has_node id ns || has_node id ms)
has_node-append id ns ms = contains-map-append id (λ n. n.id) ns ms

-- Five tests, and the fifth passes where the others fail.
some_of_five :
    (a b c d e all four : Bool)
    → e ≡ (all && not four)
    → four ≡ (a || b || c || d)
    → all ≡ true
    → (a || (b || (c || (d || (e || false))))) ≡ true
some_of_five a b c d e all four h k l = ground arith

pub groups_of-cover :
    (id : Text) (infra : List CodeNode)
    → has_node id infra ≡ true
    → any (λ row. has_node id row.1) (prefixed (groups_of infra)) ≡ true
unfolding groups_of
groups_of-cover id infra h =
    let g = groups_of infra in
    let four = g.in_k8s ++ g.in_compose ++ g.in_tf ++ g.in_docker in
    some_of_five (has_node id g.in_k8s) (has_node id g.in_compose) (has_node id g.in_tf)
      (has_node id g.in_docker) (has_node id g.in_other) (has_node id infra) (has_node id four)
      (keep-has_node id (map (λ n. n.id) four) infra)
      (has_node-append id (g.in_k8s ++ g.in_compose ++ g.in_tf) g.in_docker
        ∙ ap (λ b. b || has_node id g.in_docker)
            (has_node-append id (g.in_k8s ++ g.in_compose) g.in_tf
              ∙ ap (λ b. b || has_node id g.in_tf) (has_node-append id g.in_k8s g.in_compose)))
      h
