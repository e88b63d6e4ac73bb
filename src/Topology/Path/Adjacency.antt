-- ===== src/Topology/Path/Adjacency.antt =====
-- The adjacency maps hold, for each pair of services, the first connection between them.
use mathlib.Core.List.{foldl}
use code_iq.Base.{
  ◌≡◌, refl, sym, ap, ◌∙◌, inl, inr, Bool, true, false, ◌&&◌, Option, none, some, List, [], ◌∷◌,
  ◌==◌, map, contains, arith, if◌then◌else◌, Option-cases, Bool-cases,
}
use code_iq.Base.Text.{Text, text_eq, text_beq_iff}
use code_iq.Base.Assoc.{keys, lookup, insert, has, lookup-insert}
use code_iq.Base.Assoc.Distinct.{contains-keys}
use code_iq.Base.Members.{contains-perm}
use code_iq.Base.Sort.{sort_by-perm}
use code_iq.Topology.Connections.{Connection}
use code_iq.Topology.Path.{Adjacency, row, add_connection, build_adjacency, neighbours}

-- The first connection from `s` to `t`.
abbrev pub first : List Connection → Text → Text → Option Connection
first [] s t = none
first (c ∷ cs) s t = if c.source == s && c.target == t then some c else first cs s t

abbrev or_else {ℓ} : {A : Type ℓ} → Option A → Option A → Option A
or_else none p = p
or_else (some a) p = some a

or_else_assoc {ℓ} :
    {A : Type ℓ} (o p q : Option A) → or_else (or_else o p) q ≡ or_else o (or_else p q)
or_else_assoc none p q = refl
or_else_assoc (some a) p q = refl

or_else-none {ℓ} : {A : Type ℓ} (o : Option A) → or_else o none ≡ o
or_else-none none = refl
or_else-none (some a) = refl

-- Filling in one key.
lookup-insert_new :
    {V : Type 0} (t k : Text) (v : V) (r : List (Text × V))
    → lookup t (if has k r then r else insert k v r)
      ≡ or_else (lookup t r) (if k == t then some v else none)
unfolding has
lookup-insert_new t k v r = elim (Option-cases (lookup t r)) [
  | inl new ↦ ground (arith, lookup-insert k t v r, text_beq_iff k t)
  | inr (w, old) ↦ ground (arith, lookup-insert k t v r, text_beq_iff k t)
]

module _ (s t : Text) where
  abbrev entry : Adjacency → Option Connection
  entry adj = lookup t (row adj s)

  row-add :
      (adj : Adjacency) (c : Connection)
      → row (add_connection adj c) s ≡ (
          if c.source == s
          then (if has c.target (row adj c.source)
              then row adj c.source
              else insert c.target c (row adj c.source))
          else row adj s)
  unfolding add_connection
  row-add adj c =
      let r = row adj c.source in
      ground
        (arith, lookup-insert c.source s (if has c.target r then r else insert c.target c r) adj)

  entry-add :
      (adj : Adjacency) (c : Connection)
      → entry (add_connection adj c) ≡ or_else (entry adj) (first (c ∷ []) s t)
  entry-add adj c =
      let at_source = lookup-insert_new t c.target c (row adj c.source) in
      ap (lookup t) (row-add adj c) ∙ elim (Bool-cases (c.source == s)) [
        | inl here ↦
            let e = (text_beq_iff c.source s).0 here in
            rw here (
              at_source
              ∙ ap (λ u. or_else (lookup t (row adj u)) (if c.target == t then some c else none)) e)
        | inr other ↦ rw other (sym (or_else-none (entry adj)))
      ]

  first-cons :
      (c : Connection) (cs : List Connection)
      → first (c ∷ cs) s t ≡ or_else (first (c ∷ []) s t) (first cs s t)
  first-cons c cs = ground arith

  entry-fold :
      (cs : List Connection) (adj : Adjacency)
      → entry (foldl add_connection adj cs) ≡ or_else (entry adj) (first cs s t)
  entry-fold [] adj = sym (or_else-none (entry adj))
  entry-fold (c ∷ cs) adj =
      entry-fold cs (add_connection adj c)
      ∙ (ap (λ o. or_else o (first cs s t)) (entry-add adj c)
          ∙ (or_else_assoc (entry adj) (first (c ∷ []) s t) (first cs s t)
              ∙ ap (or_else (entry adj)) (sym (first-cons c cs))))

  pub lookup-build_adjacency :
      (cs : List Connection) → lookup t (row (build_adjacency cs) s) ≡ first cs s t
  unfolding build_adjacency lookup
  lookup-build_adjacency cs = entry-fold cs []

-- Some connection leads from `s` to `t`.
abbrev pub connects : List Connection → Text → Text → Bool
connects cs s t = elim (first cs s t) [ none ↦ false | some c ↦ true ]

-- The neighbours are exactly the services that a connection leads to.
pub contains-neighbours :
    (cs : List Connection) (s t : Text)
    → contains t (neighbours (build_adjacency cs) s) ≡ connects cs s t
unfolding neighbours has
contains-neighbours cs s t =
    contains-perm t (sort_by-perm (λ u. u) (keys (row (build_adjacency cs) s)))
    ∙ (contains-keys t (row (build_adjacency cs) s) ∙ rw (lookup-build_adjacency s t cs, has))

-- A connection leads only to a target of the list.
pub connects-target :
    (cs : List Connection) (s t : Text)
    → connects cs s t ≡ true
    → contains t (map (λ c. c.target) cs) ≡ true
connects-target [] s t h = cc
connects-target (c ∷ cs) s t h =
    ground (arith, text_beq_iff c.target t, text_beq_iff t c.target, connects-target cs s t)
