-- ===== src/Topology/Path/Progress.antt =====
-- A round that does not end the search keeps the invariant.
use code_iq.Base.{
  ◌≡◌, sym, subst, ◌≢◌, false, List, [], ◌∷◌, ◌++◌, contains, length, length-append, All, arith,
}
use code_iq.Base.Text.{Text, text_eq, text_beq_iff}
use code_iq.Topology.Path.{Adjacency, neighbours, last, enqueue}
use code_iq.Topology.Path.Walks.{Walk, IsPathFrom, IsPathFrom-append}
use code_iq.Topology.Path.Round.{contains-visited, contains-queue, enqueue-All}
use code_iq.Topology.Path.Loop.{IsNear, IsGraded-enqueue, IsShortest, Inv, at_last, frontier}

All-pair :
    {A : Type 0} (P Q : A → Type 0) (xs : List A) → All P xs → All Q xs → All (λ x. P x × Q x) xs
All-pair P Q [] hp hq = tt
All-pair P Q (x ∷ xs) hp hq = ((hp.0, hq.0), All-pair P Q xs hp.1 hq.1)

module _ (adj : Adjacency) (source target : Text) (p : List Text) (q : List (List Text))
    (vis : List Text) where
  -- A new path is a shortest one, since each walk to its end leaves through the queue.
  IsShortest-step :
      (n : Text)
      → Inv adj source target (p ∷ q) vis
      → contains n vis ≡ false
      → last (p ++ n ∷ []) ≡ n
      → IsShortest adj source target (p ++ n ∷ [])
  IsShortest-step n h new ends k w =
      let (j, x, less, walk, queued) =
        frontier adj source target (p ∷ q) vis h k n (subst (Walk adj k source) ends w) new in
      let (r, (short, long), at) =
        at_last adj source target x (p ∷ q)
          (All-pair (IsShortest adj source target) (IsNear (length p)) (p ∷ q) h.shortest
            ((omega arith, omega arith), h.graded.0))
          queued in
      let best = short j (subst (Walk adj j source) (sym at) walk) in
      omega (arith, length-append p (n ∷ []), long.0, best, less)

  pub round-Inv :
      Inv adj source target (p ∷ q) vis
      → last p ≢ target
      → Inv adj source target
          (enqueue p (neighbours adj (last p)) q vis).0
          (enqueue p (neighbours adj (last p)) q vis).1
  round-Inv h miss =
      let ns = neighbours adj (last p) in
      record {
        start = ground (arith, contains-visited source p ns q vis, h.start);
        closed = λ u v c e. ground (
          arith,
          h.closed u v,
          text_beq_iff u (last p),
          contains-visited u p ns q vis,
          contains-visited v p ns q vis,
          contains-queue u p ns q vis,
        );
        fresh = λ u c. ground (
          arith,
          h.fresh u,
          text_beq_iff u (last p),
          contains-visited u p ns q vis,
          contains-queue u p ns q vis,
        );
        paths =
            enqueue-All (IsPathFrom adj source) p ns q vis h.paths.1
              (λ n m f. (IsPathFrom-append adj source p n h.paths.0 m).0);
        shortest =
            enqueue-All (IsShortest adj source target) p ns q vis h.shortest.1
              (λ n m f. IsShortest-step n h f (IsPathFrom-append adj source p n h.paths.0 m).1);
        graded =
            IsGraded-enqueue p ns q vis (λ n. omega (arith, length-append p (n ∷ []))) h.graded.0
              h.graded.1;
      }
