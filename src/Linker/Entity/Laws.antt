-- ===== src/Linker/Entity/Laws.antt =====
-- Which edges the entity linker adds.
use mathlib.Core.List.{
  Mem, mem-cons_self, mem-cons_of_mem, eq-or-mem_of_mem-cons, not-mem-nil, Mem-prop,
}
use mathlib.Core.List.Perm
use mathlib.Core.Logic.Or
use code_iq.Base.{
  ◌≡◌, refl, ap, inl, inr, Bool, true, false, Option, some, List, [], ◌∷◌, contains, All, arith,
  Bool-cases, Option-cases, if◌then◌else◌,
}
use code_iq.Base.Text.{Text, text_eq}
use code_iq.Base.Assoc.{lookup}
use code_iq.Base.Sort.{sort_by, sort_by-perm}
use code_iq.Base.Shuffle.{mem-keep}
use code_iq.Model.NodeKind
use code_iq.Model.Node.{CodeNode, CodeEdge}
use code_iq.Linker.Entity.{
  repo_suffixes, of_kind, entity_by_name, pair_key, existing_queries, base_name, entity_edge,
  link_repository, gather, is_none_of, link_entities,
}
use code_iq.Linker.Entity.Registry.{IsNamed, entities, lookup-entities}

-- What an edge of the linker stands for.
pub record Managed (nodes : List CodeNode) (edges : List CodeEdge) (e : CodeEdge) : Type 0 where
  pub repo : CodeNode
  pub ent : CodeNode
  pub base : Text
  pub repo_listed : Mem repo nodes
  pub repo_kind : repo.kind ≡ NodeKind.repository
  pub ent_listed : Mem ent nodes
  pub ent_kind : ent.kind ≡ NodeKind.entity
  pub stripped : base_name repo_suffixes repo.label ≡ some base
  pub named : IsNamed base ent
  pub edge : e ≡ entity_edge repo.id ent.id
  pub is_new : contains (pair_key e.source_id e.target_id) (existing_queries edges) ≡ false

All-unless :
    (P : CodeEdge → Type 0) (a b : Bool) (es : List CodeEdge)
    → All P es
    → All P (if a then [] else if b then [] else es)
All-unless P true b es h = tt
All-unless P false true es h = tt
All-unless P false false es h = h

module _ (nodes : List CodeNode) (edges : List CodeEdge) where
  link_repository-Managed :
      (repo : CodeNode) (e : CodeEdge)
      → Mem repo nodes
      → repo.kind ≡ NodeKind.repository
      → link_repository (entities nodes) (existing_queries edges) repo ≡ some e
      → Managed nodes edges e
  unfolding link_repository
  link_repository-Managed repo e m kind h =
      elim (Option-cases (base_name repo_suffixes repo.label)) [
        | inl unnamed ↦ absurd (ground arith)
        | inr (base, stripped) ↦ elim (Option-cases (lookup base (entities nodes))) [
          | inl unknown ↦ absurd (ground arith)
          | inr (ent, found) ↦
              let (inside, ent_kind, named) = lookup-entities nodes base ent found in
              elim (Bool-cases (contains (pair_key repo.id ent.id) (existing_queries edges))) [
                | inl old ↦ absurd (ground arith)
                | inr new ↦
                    let made : e ≡ entity_edge repo.id ent.id = ground arith in
                    record {
                      repo = repo;
                      ent = ent;
                      base = base;
                      repo_listed = m;
                      repo_kind = kind;
                      ent_listed = inside;
                      ent_kind = ent_kind;
                      stripped = stripped;
                      named = named;
                      edge = made;
                      is_new = rw made new;
                    }
              ]
        ]
      ]

  gather-All :
      (f : CodeNode → Option CodeEdge) (P : CodeEdge → Type 0) (ns : List CodeNode)
      → ((n : CodeNode) (e : CodeEdge) → Mem n ns → f n ≡ some e → P e)
      → All P (gather f ns)
  gather-All f P [] h = tt
  gather-All f P (n ∷ ns) h =
      let rest = gather-All f P ns (λ k e m. h k e (mem-cons_of_mem n m)) in
      elim (Option-cases (f n)) [
        | inl nothing ↦ rw (gather, nothing) rest
        | inr (e, made) ↦ rw (gather, made) (h n e mem-cons_self made, rest)
      ]

  -- Every edge that the linker adds goes from a repository of the list to an entity of the list
  -- whose label or simple name is, in lower case, what the first suffix that matches leaves of
  -- the repository's label; and no QUERIES edge between the two was there before.
  pub link_entities-Managed : All (Managed nodes edges) (link_entities nodes edges).edges
  unfolding link_entities
  link_entities-Managed =
      let repositories = of_kind NodeKind.repository nodes in
      let all =
        gather-All (link_repository (entities nodes) (existing_queries edges)) (Managed nodes edges)
          (sort_by (λ n. n.id) repositories)
          (λ n e m made.
            let (inside, kind) =
              (mem-keep (λ k. NodeKind.same k.kind NodeKind.repository) n nodes).0
                ((Perm.mem_iff (sort_by-perm (λ k. k.id) repositories)).0 m) in
            link_repository-Managed n e inside
              ((NodeKind.same_iff n.kind NodeKind.repository).0 kind) made) in
      All-unless (Managed nodes edges) (is_none_of (of_kind NodeKind.entity nodes))
        (is_none_of repositories) _ all

  mem-gather :
      (f : CodeNode → Option CodeEdge) (ns : List CodeNode) (n : CodeNode) (e : CodeEdge)
      → f n ≡ some e
      → Mem n ns
      → Mem e (gather f ns)
  mem-gather f [] n e made m = absurd (not-mem-nil m)
  mem-gather f (k ∷ ns) n e made m =
      Or.elim Mem-prop (eq-or-mem_of_mem-cons m)
        (λ same. rw (gather, ← ap f same, made) mem-cons_self)
        (λ later.
          let rest = mem-gather f ns n e made later in
          elim (Option-cases (f k)) [
            | inl nothing ↦ rw (gather, nothing) rest
            | inr (d, other) ↦ rw (gather, other) (mem-cons_of_mem d rest)
          ])

  mem→not_none : {A : Type 0} (a : A) (l : List A) → Mem a l → is_none_of l ≡ false
  mem→not_none a [] m = absurd (not-mem-nil m)
  mem→not_none a (x ∷ l) m = refl

  -- A repository of the list whose stripped name is the name of an entity of the list gets an
  -- edge, unless one from it to the entity that the name stands for was there before.
  pub link_entities-finds :
      (repo ent : CodeNode) (base : Text)
      → Mem repo nodes
      → repo.kind ≡ NodeKind.repository
      → base_name repo_suffixes repo.label ≡ some base
      → lookup base (entity_by_name (of_kind NodeKind.entity nodes)) ≡ some ent
      → contains (pair_key repo.id ent.id) (existing_queries edges) ≡ false
      → Mem (entity_edge repo.id ent.id) (link_entities nodes edges).edges
  unfolding link_entities link_repository
  link_entities-finds repo ent base m kind stripped found new =
      let repositories = of_kind NodeKind.repository nodes in
      let (inside, ent_kind, named) = lookup-entities nodes base ent found in
      let is_repo =
        (mem-keep (λ k. NodeKind.same k.kind NodeKind.repository) repo nodes).1
          (m, (NodeKind.same_iff repo.kind NodeKind.repository).1 kind) in
      let is_ent =
        (mem-keep (λ k. NodeKind.same k.kind NodeKind.entity) ent nodes).1
          (inside, (NodeKind.same_iff ent.kind NodeKind.entity).1 ent_kind) in
      let made : link_repository (entities nodes) (existing_queries edges) repo
          ≡ some (entity_edge repo.id ent.id) =
        rw (stripped, link_repository, found, new) refl in
      rw
        (
          mem→not_none ent (of_kind NodeKind.entity nodes) is_ent,
          mem→not_none repo repositories is_repo,
        )
        (mem-gather (link_repository (entities nodes) (existing_queries edges))
          (sort_by (λ n. n.id) repositories) repo (entity_edge repo.id ent.id) made
          ((Perm.mem_iff (sort_by-perm (λ k. k.id) repositories)).1 is_repo))
