-- ===== src/Topology/Path/Route.antt =====
-- `FindPath` in terms of the connections: the routes that its hops describe.
use code_iq.Base.{
  ℕ, zero, suc, ◌≤◌, ◌≡◌, refl, sym, subst, ◌∙◌, Bool, true, not, some, List, [], ◌∷◌, map,
  contains, length, length-map, keep, inl, inr, arith, Option-cases,
}
use code_iq.Base.Text.{Text, text_eq, lit}
use code_iq.Topology.Connections.{Connection}
use code_iq.Topology.Path.{
  build_adjacency, last, Search, found, absent, out_of_fuel, search_path, Hop, hop_kind, hops,
  PathResult, path, no_path, no_fuel, path_result, find_path,
}
use code_iq.Topology.Path.Adjacency.{
  first, connects, lookup-build_adjacency, contains-neighbours, connects-target,
}
use code_iq.Topology.Path.Walks.{Walk, IsPathFrom}
use code_iq.Topology.Path.Round.{unseen}
use code_iq.Topology.Path.Correct.{IsFound, search_path-IsFound, start_Inv}

length-keep : {A : Type 0} (p : A → Bool) (xs : List A) → length (keep p xs) ≤ length xs
length-keep p [] = omega arith
length-keep p (x ∷ xs) = ground (arith, length-keep p xs)

abbrev pub or_unknown : Text → Text
or_unknown [] = lit "unknown"
or_unknown (b ∷ bs) = b ∷ bs

-- Some chain of `n` connections leads from `s` to `t`.
abbrev pub IsReachable : List Connection → ℕ → Text → Text → Type 0
IsReachable cs zero s t = s ≡ t
IsReachable cs (suc n) s t = (u : Text) × IsReachable cs n s u × (connects cs u t ≡ true)

-- The hops lead from `s` to `t`, each by the first connection between its ends.
abbrev pub IsRoute : List Connection → Text → Text → List Hop → Type 0
IsRoute cs s t [] = s ≡ t
IsRoute cs s t (h ∷ hs) =
    (h.from ≡ s)
    × ((c : Connection) × (first cs s h.to ≡ some c) × (h.kind ≡ or_unknown c.kind))
    × IsRoute cs h.to t hs

-- The answer to a query: a shortest route, or none where there is none.
abbrev pub IsAnswer : List Connection → Text → Text → PathResult → Type 0
IsAnswer cs s t (path hs) = IsRoute cs s t hs × ((n : ℕ) → IsReachable cs n s t → length hs ≤ n)
IsAnswer cs s t no_path = (n : ℕ) → ¬ IsReachable cs n s t
IsAnswer cs s t no_fuel = ⊥

module _ (cs : List Connection) where
  Walk-of_reachable : (n : ℕ) (s t : Text) → IsReachable cs n s t → Walk (build_adjacency cs) n s t
  Walk-of_reachable zero s t e = e
  Walk-of_reachable (suc n) s t (u, w, e) =
      (u, Walk-of_reachable n s u w, contains-neighbours cs u t ∙ e)

  connects-first :
      (s t : Text) → connects cs s t ≡ true → (c : Connection) × (first cs s t ≡ some c)
  connects-first s t h = elim (Option-cases (first cs s t)) [ inl new ↦ cc | inr old ↦ old ]

  hop_kind-first :
      (s t : Text) (c : Connection)
      → first cs s t ≡ some c
      → hop_kind (build_adjacency cs) s t ≡ or_unknown c.kind
  hop_kind-first s t c h =
      rw (hop_kind, lookup-build_adjacency s t cs, h) (elim c.kind [ [] ↦ refl | b ∷ bs ↦ refl ])

  hops-IsRoute :
      (s : Text) (p : List Text)
      → IsPathFrom (build_adjacency cs) s p
      → IsRoute cs s (last p) (hops (build_adjacency cs) p)
        × (suc (length (hops (build_adjacency cs) p)) ≡ length p)
  unfolding hops
  hops-IsRoute s [] h = absurd h
  hops-IsRoute s (x ∷ []) h = (sym h, refl)
  hops-IsRoute s (x ∷ y ∷ p) (e, edge, h) =
      let (c, f) = connects-first s y (sym (contains-neighbours cs s y) ∙ edge) in
      let (route, long) = hops-IsRoute y (y ∷ p) h in
      (
        (
          e,
          (
            c,
            f,
            subst (λ u. hop_kind (build_adjacency cs) u y ≡ or_unknown c.kind) (sym e)
                (hop_kind-first s y c f),
          ),
          route,
        ),
        omega (arith, long),
      )

  IsAnswer-of_found :
      (s t : Text) (r : Search)
      → IsFound (build_adjacency cs) s t r
      → IsAnswer cs s t (path_result (build_adjacency cs) r)
  IsAnswer-of_found s t (found p) (from, ends, best) =
      let (route, long) = hops-IsRoute s p from in
      (
        subst (λ u. IsRoute cs s u (hops (build_adjacency cs) p)) ends route,
        λ n w.
            let short =
              best n
                (subst (Walk (build_adjacency cs) n s) (sym ends) (Walk-of_reachable n s t w)) in
            omega (arith, long, short),
      )
  IsAnswer-of_found s t absent h = λ n w. h n (Walk-of_reachable n s t w)
  IsAnswer-of_found s t out_of_fuel h = h

  -- The search ends with a shortest route between the two services, made of hops that follow
  -- connections and carry the kind of the first connection between their ends, or "unknown"
  -- where that is empty; and it reports that there is none only where no chain of connections
  -- leads from the one to the other. The fuel is always enough.
  pub find_path-IsAnswer : (s t : Text) → IsAnswer cs s t (find_path cs s t)
  unfolding find_path
  find_path-IsAnswer s t =
      let targets = map (λ c. c.target) cs in
      let short : unseen targets (s ∷ []) ≤ length cs = omega (
        arith,
        length-keep (λ u. not (contains u (s ∷ []))) targets,
        length-map (λ c. c.target) cs,
      ) in
      IsAnswer-of_found s t
        (search_path (build_adjacency cs) t (suc (length cs)) ((s ∷ []) ∷ []) (s ∷ []))
        (search_path-IsFound (build_adjacency cs) s t targets
          (λ u v e. connects-target cs u v (sym (contains-neighbours cs u v) ∙ e)) (suc (length cs))
          ((s ∷ []) ∷ []) (s ∷ []) (start_Inv (build_adjacency cs) s t) (omega (arith, short)))
