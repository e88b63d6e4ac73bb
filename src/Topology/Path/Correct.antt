-- ===== src/Topology/Path/Correct.antt =====
-- `FindPath` returns a shortest route, and finds none only where there is none.
use code_iq.Base.{
  ℕ, zero, suc, ◌+◌, ◌≤◌, ◌≡◌, refl, inl, inr, true, List, [], ◌∷◌, contains, length, arith,
  Bool-cases, ◌==◌,
}
use code_iq.Base.Text.{Text, text_eq, text_beq_iff}
use code_iq.Topology.Path.{
  Adjacency, neighbours, last, enqueue, Search, found, absent, out_of_fuel, search_path,
}
use code_iq.Topology.Path.Walks.{Edge, Walk, IsPathFrom}
use code_iq.Topology.Path.Round.{unseen, enqueue-work}
use code_iq.Topology.Path.Loop.{Inv, IsShortest, frontier}
use code_iq.Topology.Path.Progress.{round-Inv}

module _ (adj : Adjacency) (source target : Text) where
  abbrev pub IsFound : Search → Type 0
  IsFound (found p) = IsPathFrom adj source p × (last p ≡ target) × IsShortest adj source target p
  IsFound absent = (n : ℕ) → ¬ Walk adj n source target
  IsFound out_of_fuel = ⊥

  pub search_path-IsFound :
      (targets : List Text)
      → ((s t : Text) → Edge adj s t → contains t targets ≡ true)
      → (fuel : ℕ) (q : List (List Text)) (vis : List Text) → Inv adj source target q vis
      → length q + unseen targets vis ≤ fuel
      → IsFound (search_path adj target fuel q vis)
  unfolding search_path
  search_path-IsFound targets all fuel [] vis h enough = λ n w.
      elim (Bool-cases (contains target vis)) [
        | inl old ↦ ground (arith, h.fresh target old)
        | inr new ↦ (let (k, u, l, v, m) = frontier adj source target [] vis h n target w new in cc)
      ]
  search_path-IsFound targets all zero (p ∷ q) vis h enough = omega (arith, enough)
  search_path-IsFound targets all (suc fuel) (p ∷ q) vis h enough =
      elim (Bool-cases (last p == target)) [
        | inl here ↦ rw here (h.paths.0, (text_beq_iff (last p) target).0 here, h.shortest.0)
        | inr miss ↦
            let ns = neighbours adj (last p) in
            rw miss (
              search_path-IsFound targets all fuel (enqueue p ns q vis).0 (enqueue p ns q vis).1
                (round-Inv adj source target p q vis h
                  (ground (arith, text_beq_iff (last p) target)))
                (omega (arith, enough, enqueue-work targets p ns q vis (all (last p)))))
      ]

  pub start_Inv : Inv adj source target ((source ∷ []) ∷ []) (source ∷ [])
  start_Inv = record {
    start = ground (arith, text_beq_iff source source);
    closed = λ u v c e. inl c;
    fresh = λ u c. inl c;
    paths = (refl, tt);
    shortest = (λ n w. omega arith, tt);
    graded = (tt, tt);
  }
