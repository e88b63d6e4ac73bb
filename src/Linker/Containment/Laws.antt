-- ===== src/Linker/Containment/Laws.antt =====
-- What the rounds of the containment linker keep and add.
use mathlib.Core.List.{append-nil, Mem}
use code_iq.Base.{
  ◌≡◌, sym, ap, inl, inr, Bool, true, false, List, [], ◌∷◌, ◌++◌, map, contains, contains-append,
  All, All-append, arith, Bool-cases,
}
use code_iq.Base.Text.{Text, text_eq, text_beq_iff}
use code_iq.Base.Assoc.{keys}
use code_iq.Base.Sort.{sort_by}
use code_iq.Model.Node.{CodeNode, CodeEdge}
use code_iq.Linker.Entity.{pair_key}
use code_iq.Linker.Containment.{
  is_member, by_module, existing_modules, edge_key, existing_contains, module_id, new_module,
  containment_edge, Grouping, add_module, add_member, link_module, group_modules,
}
use code_iq.Linker.Containment.Visited.{fold-keeps, grown, visited, mem-visited}

module _ (nodes : List CodeNode) (edges : List CodeEdge) where
  -- What an edge of the linker stands for.
  pub record Grouped (e : CodeEdge) : Type 0 where
    pub member : CodeNode
    pub listed : Mem member nodes
    pub belongs : is_member member ≡ true
    pub edge : e ≡ containment_edge (module_id member.in_module) member.id
    pub is_new : contains (edge_key e) (existing_contains edges) ≡ false

  -- The two sets are what was there before and what the loop has added.
  abbrev pub IsGrouping : Grouping → Type 0
  IsGrouping s =
      (s.modules ≡ existing_modules nodes ++ map (λ n. n.id) s.new_nodes)
      × (s.contained ≡ existing_contains edges ++ map edge_key s.new_edges)
      × All Grouped s.new_edges

  add_module-IsGrouping :
      (s : Grouping) (name : Text) → IsGrouping s → IsGrouping (add_module s name)
  unfolding add_module
  add_module-IsGrouping s name (modules, contained, sound) =
      elim (Bool-cases (contains (module_id name) s.modules)) [
        | inl old ↦ rw (add_module, old) (modules, contained, sound)
        | inr new ↦
            rw (add_module, new)
              (
                grown (λ n. n.id) (existing_modules nodes) s.modules s.new_nodes (new_module name)
                    modules,
                contained,
                sound,
              )
      ]

  not_before :
      (k : Text) (old set more : List Text)
      → set ≡ old ++ more
      → contains k set ≡ false
      → contains k old ≡ false
  not_before k old set more h new = ground (arith, contains-append k old more, ap (contains k) h)

  add_member-IsGrouping :
      (name : Text) (s : Grouping) (n : CodeNode)
      → Mem n (visited nodes name)
      → IsGrouping s
      → IsGrouping (add_member name s n)
  unfolding add_member
  add_member-IsGrouping name s n m (modules, contained, sound) =
      let (inside, member, named) = (mem-visited nodes name n).0 m in
      let edge = containment_edge (module_id name) n.id in
      elim (Bool-cases (contains (edge_key edge) s.contained)) [
        | inl old ↦ rw (add_member, old) (modules, contained, sound)
        | inr new ↦
            let grouped : Grouped edge = record {
              member = n;
              listed = inside;
              belongs = member;
              edge = ap (λ t. containment_edge (module_id t) n.id) (sym named);
              is_new =
                  not_before (edge_key edge) (existing_contains edges) s.contained _ contained new;
            } in
            rw (add_member, new)
              (
                modules,
                grown edge_key (existing_contains edges) s.contained s.new_edges edge contained,
                All-append Grouped s.new_edges (edge ∷ []) sound (grouped, tt),
              )
      ]

  pub group_modules-IsGrouping : IsGrouping (group_modules nodes edges)
  unfolding group_modules link_module
  group_modules-IsGrouping =
      fold-keeps (link_module (by_module nodes)) IsGrouping
        (sort_by (λ name. name) (keys (by_module nodes)))
        (λ s name m h.
          fold-keeps (add_member name) IsGrouping (visited nodes name) (add_member-IsGrouping name)
            (add_module s name) (add_module-IsGrouping s name h))
        _
        (sym (append-nil (existing_modules nodes)), sym (append-nil (existing_contains edges)), tt)

contains-grow :
    (k : Text) (set more : List Text) → contains k set ≡ true → contains k (set ++ more) ≡ true
contains-grow k set more h = ground (arith, contains-append k set more)

contains-last : (k : Text) (set : List Text) → contains k (set ++ k ∷ []) ≡ true
contains-last k set = ground (arith, contains-append k set (k ∷ []), text_beq_iff k k)

abbrev pub has_key : Text → Grouping → Bool
has_key k s = contains k s.contained

abbrev pub has_module : Text → Grouping → Bool
has_module k s = contains k s.modules

pub add_module-keeps_key :
    (k : Text) (s : Grouping) (name : Text) → has_key k (add_module s name) ≡ has_key k s
unfolding add_module
add_module-keeps_key k s name = ground arith

pub add_module-keeps :
    (k : Text) (s : Grouping) (name : Text)
    → has_module k s ≡ true
    → has_module k (add_module s name) ≡ true
unfolding add_module
add_module-keeps k s name h = elim (Bool-cases (contains (module_id name) s.modules)) [
  | inl old ↦ rw (add_module, old) h
  | inr new ↦ rw (add_module, new) (contains-grow k s.modules (module_id name ∷ []) h)
]

pub add_module-adds :
    (s : Grouping) (name : Text) → has_module (module_id name) (add_module s name) ≡ true
unfolding add_module
add_module-adds s name = elim (Bool-cases (contains (module_id name) s.modules)) [
  | inl old ↦ rw (add_module, old) old
  | inr new ↦ rw (add_module, new) (contains-last (module_id name) s.modules)
]

pub add_member-keeps_module :
    (k name : Text) (s : Grouping) (n : CodeNode)
    → has_module k (add_member name s n) ≡ has_module k s
unfolding add_member
add_member-keeps_module k name s n = ground arith

pub add_member-keeps :
    (k name : Text) (s : Grouping) (n : CodeNode)
    → has_key k s ≡ true
    → has_key k (add_member name s n) ≡ true
unfolding add_member
add_member-keeps k name s n h =
    let key = pair_key (module_id name) n.id in
    elim (Bool-cases (contains key s.contained)) [
      | inl old ↦ rw (add_member, old) h
      | inr new ↦ rw (add_member, new) (contains-grow k s.contained (key ∷ []) h)
    ]

pub add_member-adds :
    (name : Text) (s : Grouping) (n : CodeNode)
    → has_key (pair_key (module_id name) n.id) (add_member name s n) ≡ true
unfolding add_member
add_member-adds name s n =
    let key = pair_key (module_id name) n.id in
    elim (Bool-cases (contains key s.contained)) [
      | inl old ↦ rw (add_member, old) old
      | inr new ↦ rw (add_member, new) (contains-last key s.contained)
    ]
