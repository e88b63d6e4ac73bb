-- ===== src/Linker/Entity/Registry.antt =====
-- What the map of the entity linker holds.
use mathlib.Core.List.{foldl, Mem, mem-cons_self, mem-cons_of_mem}
use code_iq.Base.{◌≡◌, sym, ◌⊎◌, inl, inr, some, List, [], ◌∷◌, ◌==◌, arith, Bool-cases}
use code_iq.Base.Text.{Text, text_eq, text_beq_iff, to_lower}
use code_iq.Base.Assoc.{lookup, insert, lookup-insert}
use code_iq.Base.Shuffle.{mem-keep}
use code_iq.Model.NodeKind
use code_iq.Model.Node.{CodeNode}
use code_iq.Linker.Entity.{of_kind, simple_name, register, entity_by_name}

-- A name of an entity: its label, or the last part of its FQN, in lower case.
abbrev pub IsNamed : Text → CodeNode → Type 0
IsNamed name e = (name ≡ to_lower e.label) ⊎ (name ≡ to_lower (simple_name e))

lookup-put :
    (k j : Text) (e f : CodeNode) (m : List (Text × CodeNode))
    → lookup k (insert j e m) ≡ some f
    → (lookup k m ≡ some f) ⊎ ((e ≡ f) × (k ≡ j))
lookup-put k j e f m h = elim (Bool-cases (j == k)) [
  | inl here ↦ inr (ground (arith, lookup-insert j k e m), sym ((text_beq_iff j k).0 here))
  | inr other ↦ inl (ground (arith, lookup-insert j k e m))
]

-- Each entry of the map is an entity of the list, under one of its names.
lookup-register :
    (k : Text) (m : List (Text × CodeNode)) (e f : CodeNode)
    → lookup k (register m e) ≡ some f
    → (lookup k m ≡ some f) ⊎ ((e ≡ f) × IsNamed k e)
unfolding register
lookup-register k m e f h =
    let labelled = insert (to_lower e.label) e m in
    let by_label = λ (g : lookup k labelled ≡ some f).
      elim (lookup-put k (to_lower e.label) e f m g)
        as (λ _. (lookup k m ≡ some f) ⊎ ((e ≡ f) × IsNamed k e)) [
          | inl old ↦ inl old
          | inr (same, at) ↦ inr (same, inl at)
        ] in
    (elim e.fqn
        as (λ q.
          lookup k (elim q [ [] ↦ labelled | c ∷ s ↦ insert (to_lower (simple_name e)) e labelled ])
            ≡ some f
          → (lookup k m ≡ some f) ⊎ ((e ≡ f) × IsNamed k e)) [
            | [] ↦ by_label
            | c ∷ s ↦ λ g. elim (lookup-put k (to_lower (simple_name e)) e f labelled g) [
              | inl before ↦ by_label before
              | inr (same, at) ↦ inr (same, inr at)
            ]
          ])
      h

lookup-registered :
    (k : Text) (es : List CodeNode) (m : List (Text × CodeNode)) (f : CodeNode)
    → lookup k (foldl register m es) ≡ some f
    → (lookup k m ≡ some f) ⊎ (Mem f es × IsNamed k f)
lookup-registered k [] m f h = inl h
lookup-registered k (e ∷ es) m f h = elim (lookup-registered k es (register m e) f h) [
  | inl before ↦ elim (lookup-register k m e f before) [
    | inl old ↦ inl old
    | inr (same, named) ↦ inr (rw (← same) mem-cons_self, rw (← same) named)
  ]
  | inr (m', named) ↦ inr (mem-cons_of_mem e m', named)
]

module _ (nodes : List CodeNode) where
  abbrev pub entities : List (Text × CodeNode)
  entities = entity_by_name (of_kind NodeKind.entity nodes)

  pub lookup-entities :
      (k : Text) (f : CodeNode)
      → lookup k entities ≡ some f
      → Mem f nodes × (f.kind ≡ NodeKind.entity) × IsNamed k f
  unfolding entity_by_name lookup
  lookup-entities k f h = elim (lookup-registered k (of_kind NodeKind.entity nodes) [] f h) [
    | inl old ↦ cc
    | inr (m, named) ↦
        let (inside, kind) = (mem-keep (λ n. NodeKind.same n.kind NodeKind.entity) f nodes).0 m in
        (inside, (NodeKind.same_iff f.kind NodeKind.entity).0 kind, named)
  ]
