-- ===== src/Topology/Cycles/Edges.antt =====
-- The maps that `FindCircular` builds hold exactly the connections.
use mathlib.Core.List.{foldl}
use code_iq.Base.{
  ◌≡◌, ap, ◌∙◌, Bool, true, ◌&&◌, ◌||◌, List, [], ◌∷◌, ◌++◌, ◌==◌, map, contains, any, arith,
  if◌then◌else◌, contains-append,
}
use code_iq.Base.Text.{Text, text_eq, text_beq_iff}
use code_iq.Base.Assoc.{keys, lookup, has, lookup-insert}
use code_iq.Base.Assoc.Distinct.{contains-keys}
use code_iq.Base.Groups.{distinct, contains-distinct}
use code_iq.Base.Members.{contains-perm}
use code_iq.Base.Sort.{sort_by-perm}
use code_iq.Topology.Connections.{Connection}
use code_iq.Topology.Cycles.{
  TargetSets, targets, add_target, build_targets, children, start_services,
}

-- A connection leads from one service to the other.
abbrev pub leads : List Connection → Text → Text → Bool
leads conns s t = any (λ c. c.source == s && c.target == t) conns

targets-add :
    (s t : Text) (adj : TargetSets) (c : Connection)
    → contains t (targets (add_target adj c) s)
      ≡ (contains t (targets adj s) || (c.source == s && c.target == t))
unfolding add_target
targets-add s t adj c =
    let ts = targets adj c.source in
    ground (
      arith,
      lookup-insert c.source s (if contains c.target ts then ts else c.target ∷ ts) adj,
      text_beq_iff c.source s,
      text_beq_iff c.target t,
      text_beq_iff t c.target,
    )

targets-fold :
    (s t : Text) (conns : List Connection) (adj : TargetSets)
    → contains t (targets (foldl add_target adj conns) s)
      ≡ (contains t (targets adj s) || leads conns s t)
targets-fold s t [] adj = ground arith
targets-fold s t (c ∷ conns) adj =
    ground (arith, targets-fold s t conns (add_target adj c), targets-add s t adj c)

pub contains-children :
    (conns : List Connection) (s t : Text)
    → contains t (children (build_targets conns) s) ≡ leads conns s t
unfolding children build_targets lookup
contains-children conns s t =
    contains-perm t (sort_by-perm (λ u. u) (targets (build_targets conns) s))
    ∙ targets-fold s t conns []

-- Both ends of a connection are services from which a search starts.
pub contains-start_services :
    (adj : TargetSets) (conns : List Connection) (t : Text)
    → contains t (start_services adj conns) ≡ (has t adj || contains t (map (λ c. c.target) conns))
unfolding start_services
contains-start_services adj conns t =
    contains-perm t (sort_by-perm (λ u. u) (distinct (keys adj ++ map (λ c. c.target) conns)))
    ∙ (contains-distinct t (keys adj ++ map (λ c. c.target) conns)
        ∙ (contains-append t (keys adj) (map (λ c. c.target) conns)
            ∙ ap (λ b. b || contains t (map (λ c. c.target) conns)) (contains-keys t adj)))

leads-target :
    (conns : List Connection) (s t : Text)
    → leads conns s t ≡ true
    → contains t (map (λ c. c.target) conns) ≡ true
leads-target [] s t h = cc
leads-target (c ∷ conns) s t h =
    ground (arith, text_beq_iff c.target t, text_beq_iff t c.target, leads-target conns s t)

has-targets : (adj : TargetSets) (s t : Text) → contains t (targets adj s) ≡ true → has s adj ≡ true
unfolding has
has-targets adj s t h = ground arith

pub leads-start_services :
    (conns : List Connection) (s t : Text)
    → leads conns s t ≡ true
    → (contains s (start_services (build_targets conns) conns) ≡ true)
      × (contains t (start_services (build_targets conns) conns) ≡ true)
unfolding build_targets lookup
leads-start_services conns s t h =
    let adj = build_targets conns in
    (
      ground (
        arith,
        contains-start_services adj conns s,
        has-targets adj s t,
        targets-fold s t conns [],
      ),
      ground (arith, contains-start_services adj conns t, leads-target conns s t h),
    )
