-- ===== src/Topology/Cycles/Found.antt =====
-- `FindCircular` reports cycles only, and reports one where there is one.
use mathlib.Core.List.{Nodup, Pairwise}
use code_iq.Base.{
  ℕ, suc, ◌<◌, ◌≤◌, ◌≡◌, ◌↔◌, refl, sym, subst, ◌∙◌, inl, inr, Bool, true, some, List, [], ◌∷◌,
  ◌++◌, map, contains, length, All, arith, Bool-cases, if◌then◌else◌,
}
use code_iq.Base.Text.{Text, text_eq, text_beq_iff}
use code_iq.Topology.Connections.{Connection}
use code_iq.Topology.Cycles.{
  TargetSets, build_targets, start_services, Visit, cycle_key, search_from, each, find_circular,
}
use code_iq.Topology.Cycles.Walks.{IsWalk, IsCycle}
use code_iq.Topology.Cycles.Edges.{leads, contains-children, leads-start_services}
use code_iq.Topology.Cycles.Each.{Leads, each-Leads}
use code_iq.Topology.Cycles.Search.{edge, IsFinished, Inv, Grows, IsDone}
use code_iq.Topology.Cycles.Search.Room.{room-empty}
use code_iq.Topology.Cycles.Search.Depth.{
  Grows-refl, Grows-trans, IsDone-later, dfs_find_cycles-Leads,
}

-- How many services were done before the first time that a service was.
abbrev rank : Text → List Text → ℕ
rank t [] = 0
rank t (u ∷ us) = if contains t us then rank t us else suc (length us)

rank_le : (t : Text) (us : List Text) → rank t us ≤ length us
rank_le t [] = omega arith
rank_le t (u ∷ us) = ground (arith, rank_le t us)

module _ (adj : TargetSets) where
  edge-rank :
      (s t : Text) (us : List Text)
      → IsFinished adj us
      → contains s us ≡ true
      → edge adj s t ≡ true
      → (contains t us ≡ true) × (rank t us < rank s us)
  edge-rank s t [] f inside e = cc
  edge-rank s t (u ∷ us) f inside e = elim (Bool-cases (contains s us)) [
    | inl before ↦ let (known, less) = edge-rank s t us f.1 before e in ground (arith, known, less)
    | inr new ↦
        let same : s ≡ u = ground (arith, text_beq_iff s u) in
        let known = f.0 t (subst (λ x. edge adj x t ≡ true) same e) in
        ground (arith, known, rank_le t us)
  ]

  walk-rank :
      (us : List Text)
      → IsFinished adj us
      → (s : Text) (ts : List Text) (t : Text) → IsWalk (edge adj) ((s ∷ ts) ++ t ∷ [])
      → contains s us ≡ true
      → rank t us < rank s us
  walk-rank us f s [] t w inside = (edge-rank s t us f inside w.0).1
  walk-rank us f s (u ∷ ts) t w inside =
      let (known, less) = edge-rank s u us f inside w.0 in
      omega (arith, less, walk-rank us f u ts t w.1 known)

  never_closed :
      (us : List Text)
      → IsFinished adj us
      → (s : Text) (ts : List Text) → contains s us ≡ true
      → ¬ IsWalk (edge adj) ((s ∷ ts) ++ s ∷ [])
  never_closed us f s ts inside w =
      let less = walk-rank us f s ts s w inside in absurd (omega (arith, less))

module _ (conns : List Connection) where
  abbrev adj : TargetSets
  adj = build_targets conns

  abbrev starts : List Text
  starts = start_services adj conns

  abbrev Fresh : Visit → Type 0
  Fresh v = Inv adj [] v × (v.in_stack ≡ [])

  abbrev nothing : Visit
  nothing = record { in_stack = []; cycles = []; seen = []; visited = [] }

  leads-edge : (s t : Text) → edge adj s t ≡ true → leads conns s t ≡ true
  leads-edge s t e = sym (contains-children conns s t) ∙ e

  search_from-Leads :
      (c : Text)
      → contains c starts ≡ true
      → (v : Visit) → Fresh v
      → Leads Fresh Grows (IsDone c) v (search_from adj (suc (length starts)) c v)
  search_from-Leads c known v (i, empty) =
      let r =
        dfs_find_cycles-Leads adj starts
          (λ s t e. (leads-start_services conns s t (leads-edge s t e)).1) (suc (length starts)) []
          c (record v { in_stack = [] }) (omega (arith, room-empty starts)) known tt
          (record {
            agrees = λ t. refl;
            simple = Pairwise.nil;
            cyclic = i.cyclic;
            keyed = i.keyed;
            once = i.once;
            finished = i.finished;
          }) in
      record {
        after = r.after;
        returns = r.returns;
        keeps = (r.keeps, r.grows.same_stack);
        grows = record {
          same_stack = r.grows.same_stack ∙ sym empty;
          more_visited = r.grows.more_visited;
          more_cycles = r.grows.more_cycles;
        };
        post = r.post;
      }

  search_all :
      Leads Fresh Grows
        (λ v. (c : Text) → contains c starts ≡ true → IsDone c v)
        nothing
        (each (search_from adj (suc (length starts))) starts nothing)
  search_all =
      each-Leads Fresh Grows IsDone Grows-refl Grows-trans IsDone-later
        (search_from adj (suc (length starts))) starts search_from-Leads nothing
        (
          record {
            agrees = λ t. refl;
            simple = Pairwise.nil;
            cyclic = tt;
            keyed = refl;
            once = Pairwise.nil;
            finished = λ e. tt;
          },
          refl,
        )

first_step :
    (r : Text → Text → Bool) (s : Text) (ts : List Text)
    → IsWalk r ((s ∷ ts) ++ s ∷ [])
    → (u : Text) × (r s u ≡ true)
first_step r s [] w = (s, w.0)
first_step r s (u ∷ ts) w = (u, w.0)

no_cycles :
    (r : Text → Text → Bool) (cycles : List (List Text))
    → All (IsCycle r) cycles
    → ((s : Text) (ts : List Text) → ¬ IsWalk r ((s ∷ ts) ++ s ∷ []))
    → cycles ≡ []
no_cycles r [] h none_at_all = refl
no_cycles r (c ∷ cycles) h none_at_all = absurd (none_at_all h.0.first h.0.others h.0.walk)

-- The search returns. Each reported list is a cycle of the connections that starts and ends at
-- its least service and passes no service twice in between, no two have the same key, and the
-- report is empty exactly when no walk over the connections comes back to where it began.
pub find_circular_lem :
    (conns : List Connection)
    → (cycles : List (List Text)) × (find_circular conns ≡ some cycles)
      × All (IsCycle (leads conns)) cycles
      × Nodup (map cycle_key cycles)
      × ((cycles ≡ [])
          ↔ ((s : Text) (ts : List Text) → ¬ IsWalk (leads conns) ((s ∷ ts) ++ s ∷ [])))
unfolding find_circular
find_circular_lem conns =
    let same : edge (build_targets conns) ≡ leads conns = λ i s t. contains-children conns s t i in
    let all = search_all conns in
    let v = all.after in
    let inv = all.keeps.0 in
    (
      v.cycles,
      rw (find_circular, all.returns) refl,
      subst (λ r. All (IsCycle r) v.cycles) same inv.cyclic,
      subst Nodup inv.keyed inv.once,
      (
        λ e s ts w.
            let (u, next) = first_step (leads conns) s ts w in
            let done = all.post s (leads-start_services conns s u next).0 e in
            never_closed (build_targets conns) v.visited (inv.finished e) s ts done
              (subst (λ r. IsWalk r ((s ∷ ts) ++ s ∷ [])) (sym same) w),
        no_cycles (leads conns) v.cycles (subst (λ r. All (IsCycle r) v.cycles) same inv.cyclic),
      ),
    )
