-- ===== src/Flow/Edges.antt =====
-- Which nodes a diagram has, and that its edges join them.
pub mod Overview
pub mod Tiers
pub mod Drawn
pub mod Ci
pub mod Deploy
pub mod Deployed
use mathlib.Core.List.{append-nil}
use code_iq.Base.{
  ◌≡◌, refl, sym, ap, ap₂, subst, ◌∙◌, inl, inr, Bool, true, false, ◌&&◌, ◌||◌, Option, none, some,
  List, [], ◌∷◌, ◌++◌, ◌==◌, map, keep-All, flat, flat-append, contains, contains-map-append,
  is_nonempty, All, All-append, arith, Bool-cases, if◌then◌else◌,
}
use code_iq.Base.Text.{Text, text_eq, text_beq_iff, text_beq}
use code_iq.Model.Node.{CodeNode}
use code_iq.Flow.Models.{
  FlowNode, FlowEdge, Subgraph, Diagram, all_nodes, node_ids, joins, valid_edges, subgraph_if_any,
  counted_if_any,
}
use code_iq.Flow.Views.{find_subgraph}

abbrev pub nodes_in : List Subgraph → List FlowNode
nodes_in = flat (λ sg. sg.nodes)

abbrev pub has_id : Text → List FlowNode → Bool
has_id id ns = contains id (node_ids ns)

pub has_id-append :
    (id : Text) (ns ms : List FlowNode) → has_id id (ns ++ ms) ≡ (has_id id ns || has_id id ms)
has_id-append id ns ms = contains-map-append id (λ n. n.id) ns ms

pub has_id-left :
    (id : Text) (ns ms : List FlowNode) → has_id id ns ≡ true → has_id id (ns ++ ms) ≡ true
has_id-left id ns ms h = ground (arith, has_id-append id ns ms)

pub has_id-right :
    (id : Text) (ns ms : List FlowNode) → has_id id ms ≡ true → has_id id (ns ++ ms) ≡ true
has_id-right id ns ms h = ground (arith, has_id-append id ns ms)

pub nodes_in-subgraph_if_any :
    (id label : Text) (ns : List FlowNode) (view : Text)
    → nodes_in (subgraph_if_any id label ns view) ≡ ns
nodes_in-subgraph_if_any id label [] view = refl
nodes_in-subgraph_if_any id label (n ∷ ns) view = append-nil (n ∷ ns)

pub nodes_in-join :
    (sgs rest : List Subgraph) (ns ms : List FlowNode)
    → nodes_in sgs ≡ ns
    → nodes_in rest ≡ ms
    → nodes_in (sgs ++ rest) ≡ ns ++ ms
nodes_in-join sgs rest ns ms e f = flat-append (λ sg. sg.nodes) sgs rest ∙ ap₂ ◌++◌ e f

-- The first node of a subgraph that is found is a node of the diagram.
pub find_subgraph-has_id :
    (sgs : List Subgraph) (id : Text) (sg : Subgraph) (n : FlowNode) (ns : List FlowNode)
    → find_subgraph sgs id ≡ some sg
    → sg.nodes ≡ n ∷ ns
    → has_id n.id (nodes_in sgs) ≡ true
find_subgraph-has_id [] id sg n ns found first = cc
find_subgraph-has_id (s ∷ sgs) id sg n ns found first =
    has_id-append n.id s.nodes (nodes_in sgs) ∙ elim (Bool-cases (s.id == id)) [
      | inl here ↦
          let it : some s ≡ some sg = sym (rw here refl) ∙ found in
          let nodes : s.nodes ≡ n ∷ ns =
            ap (λ (o : Option Subgraph). elim o [ none ↦ [] | some x ↦ x.nodes ]) it ∙ first in
          rw nodes (ground (arith, text_beq_iff n.id n.id))
      | inr other ↦
          let later : find_subgraph sgs id ≡ some sg = sym (rw other refl) ∙ found in
          ground (arith, find_subgraph-has_id sgs id sg n ns later first)
    ]

pub All-if :
    {A : Type 0} (P : A → Type 0) (c : Bool) (l : List A)
    → (c ≡ true → All P l)
    → All P (if c then l else [])
All-if P true l h = h refl
All-if P false l h = tt

-- An edge between nodes of a diagram without loose nodes.
abbrev pub IsJoined : List Subgraph → FlowEdge → Type 0
IsJoined sgs e = joins (node_ids (nodes_in sgs)) e ≡ true

pub valid_edges-All :
    (d : Diagram)
    → d.loose_nodes ≡ []
    → All (IsJoined d.subgraphs) d.edges
    → valid_edges d ≡ d.edges
unfolding valid_edges all_nodes
valid_edges-All d no_loose h =
    let same = ap (λ l. node_ids (l ++ nodes_in d.subgraphs)) no_loose in
    keep-All (joins (node_ids (all_nodes d))) d.edges
      (subst (λ ids. All (λ e. joins ids e ≡ true) d.edges) (sym same) h)
