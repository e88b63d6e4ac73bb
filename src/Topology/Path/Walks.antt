-- ===== src/Topology/Path/Walks.antt =====
-- Walks over the connections, and the paths that the search builds.
use code_iq.Base.{ℕ, zero, suc, ◌≡◌, refl, true, List, [], ◌∷◌, ◌++◌, contains, length, arith}
use code_iq.Base.Text.{Text, text_eq}
use code_iq.Topology.Path.{Adjacency, neighbours, last}

module _ (adj : Adjacency) where
  abbrev pub Edge : Text → Text → Type 0
  Edge s t = contains t (neighbours adj s) ≡ true

  -- A walk of the given number of steps.
  abbrev pub Walk : ℕ → Text → Text → Type 0
  Walk zero s t = s ≡ t
  Walk (suc n) s t = (u : Text) × Walk n s u × Edge u t

  -- A list of services that starts at `s`, each with an edge to the next.
  abbrev pub IsPathFrom : Text → List Text → Type 0
  IsPathFrom s [] = ⊥
  IsPathFrom s (x ∷ []) = x ≡ s
  IsPathFrom s (x ∷ y ∷ p) = (x ≡ s) × Edge s y × IsPathFrom y (y ∷ p)

  pub IsPathFrom-append :
      (s : Text) (p : List Text) (n : Text)
      → IsPathFrom s p
      → Edge (last p) n
      → IsPathFrom s (p ++ n ∷ [])
        × (last (p ++ n ∷ []) ≡ n)
        × (length (p ++ n ∷ []) ≡ suc (length p))
  IsPathFrom-append s [] n h e = absurd h
  IsPathFrom-append s (x ∷ []) n h e = ((h, rw (← h) e, refl), refl, refl)
  IsPathFrom-append s (x ∷ y ∷ p) n h e =
      let (path, ends, long) = IsPathFrom-append y (y ∷ p) n h.2 e in
      ((h.0, h.1, path), ends, omega arith)
