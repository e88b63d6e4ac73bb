-- ===== src/Linker/Containment/Members.antt =====
-- Every member of a module is contained in it.
use mathlib.Core.List.{Mem, mem-cons_self, mem-cons_of_mem}
use code_iq.Base.{◌≡◌, refl, sym, ap, ◌∙◌, true, List, [], ◌∷◌, ◌++◌, map, keep, contains, All}
use code_iq.Base.Text.{Text, text_eq}
use code_iq.Base.Assoc.{keys}
use code_iq.Base.Sort.{sort_by}
use code_iq.Base.Shuffle.{mem-keep}
use code_iq.Model.Node.{CodeNode, CodeEdge}
use code_iq.Linker.{Linked}
use code_iq.Linker.Entity.{pair_key}
use code_iq.Linker.Containment.{
  is_member, by_module, existing_modules, edge_key, existing_contains, module_id, Grouping,
  add_module, add_member, link_module, group_modules, link_modules,
}
use code_iq.Linker.Containment.Visited.{fold-keeps, fold-reaches, visited, mem-visited, mem-names}
use code_iq.Linker.Containment.Laws.{
  Grouped, group_modules-IsGrouping, has_key, has_module, add_module-keeps_key, add_module-keeps,
  add_module-adds, add_member-keeps_module, add_member-keeps, add_member-adds,
}

All-of_mem : {A : Type 0} (P : A → Type 0) (xs : List A) → ((x : A) → Mem x xs → P x) → All P xs
All-of_mem P [] h = tt
All-of_mem P (x ∷ xs) h = (h x mem-cons_self, All-of_mem P xs (λ y m. h y (mem-cons_of_mem x m)))

module _ (nodes : List CodeNode) where
  abbrev members : List (Text × List CodeNode)
  members = by_module nodes

  link_module-keeps_key :
      (k : Text) (s : Grouping) (name : Text)
      → has_key k s ≡ true
      → has_key k (link_module members s name) ≡ true
  unfolding link_module
  link_module-keeps_key k s name h =
      fold-keeps (add_member name) (λ t. has_key k t ≡ true) (visited nodes name)
        (λ t n m. add_member-keeps k name t n) (add_module s name)
        (add_module-keeps_key k s name ∙ h)

  link_module-keeps :
      (k : Text) (s : Grouping) (name : Text)
      → has_module k s ≡ true
      → has_module k (link_module members s name) ≡ true
  unfolding link_module
  link_module-keeps k s name h =
      fold-keeps (add_member name) (λ t. has_module k t ≡ true) (visited nodes name)
        (λ t n m held. add_member-keeps_module k name t n ∙ held) (add_module s name)
        (add_module-keeps k s name h)

  link_module-adds :
      (s : Grouping) (name : Text) → has_module (module_id name) (link_module members s name) ≡ true
  unfolding link_module
  link_module-adds s name =
      fold-keeps (add_member name) (λ t. has_module (module_id name) t ≡ true) (visited nodes name)
        (λ t n m held. add_member-keeps_module (module_id name) name t n ∙ held) (add_module s name)
        (add_module-adds s name)

  link_module-adds_key :
      (n : CodeNode) (s : Grouping)
      → Mem n (visited nodes n.in_module)
      → has_key (pair_key (module_id n.in_module) n.id) (link_module members s n.in_module) ≡ true
  unfolding link_module
  link_module-adds_key n s m =
      let key = pair_key (module_id n.in_module) n.id in
      fold-reaches (add_member n.in_module) (has_key key) n
        (λ t k. add_member-keeps key n.in_module t k) (λ t. add_member-adds n.in_module t n)
        (visited nodes n.in_module) m (add_module s n.in_module)

  -- The module of a member is there, and contains it.
  abbrev pub IsHoused : List CodeEdge → Linked → CodeNode → Type 0
  IsHoused edges r n =
      (contains (module_id n.in_module) (existing_modules nodes ++ map (λ k. k.id) r.nodes) ≡ true)
      × (contains (pair_key (module_id n.in_module) n.id)
            (existing_contains edges ++ map edge_key r.edges)
          ≡ true)

  module _ (edges : List CodeEdge) where
    has-group_modules :
        (n : CodeNode)
        → Mem n (keep is_member nodes)
        → (has_module (module_id n.in_module) (group_modules nodes edges) ≡ true)
          × (has_key (pair_key (module_id n.in_module) n.id) (group_modules nodes edges) ≡ true)
    unfolding group_modules
    has-group_modules n inner =
        let (m, member) = (mem-keep is_member n nodes).0 inner in
        let names = sort_by (λ name. name) (keys members) in
        let named = mem-names nodes n m member in
        let key = pair_key (module_id n.in_module) n.id in
        (
          fold-reaches (link_module members) (has_module (module_id n.in_module)) n.in_module
              (λ t name. link_module-keeps (module_id n.in_module) t name)
              (λ t. link_module-adds t n.in_module) names named _,
          fold-reaches (link_module members) (has_key key) n.in_module
              (λ t name. link_module-keeps_key key t name)
              (λ t.
                link_module-adds_key n t ((mem-visited nodes n.in_module n).1 (m, member, refl)))
              names named _,
        )

    -- Every edge that the linker adds is the containment edge from the module that a node of the
    -- list names to this node, which is no module itself, and no CONTAINS edge between the two was
    -- there before; and for every node that is no module and names one, the module is in the graph,
    -- as one that was there or one that is added, and so is the CONTAINS edge to the node, where
    -- edges are compared, as in the code, by their ends joined with an arrow.
    pub link_modules-IsHoused :
        All (Grouped nodes edges) (link_modules nodes edges).edges
        × All (IsHoused edges (link_modules nodes edges)) (keep is_member nodes)
    unfolding link_modules
    link_modules-IsHoused =
        let s = group_modules nodes edges in
        let (modules, contained, sound) = group_modules-IsGrouping nodes edges in
        (
          sound,
          All-of_mem (IsHoused edges (link_modules nodes edges)) (keep is_member nodes) (λ n m.
              let (in_modules, in_contained) = has-group_modules n m in
              (
                ap (contains (module_id n.in_module)) (sym modules) ∙ in_modules,
                ap (contains (pair_key (module_id n.in_module) n.id)) (sym contained)
                    ∙ in_contained,
              )),
        )
