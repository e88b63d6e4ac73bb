-- ===== src/Topology/Path/Loop.antt =====
-- The invariant of the search, and what one round keeps of it.
use code_iq.Base.{
  ℕ, zero, suc, ◌≤◌, ◌≡◌, ◌≢◌, ◌⊎◌, inl, inr, true, false, List, [], ◌∷◌, ◌++◌, map, contains,
  length, All, All-append, arith, Bool-cases, ◌==◌,
}
use code_iq.Base.Text.{Text, text_eq, text_beq_iff}
use code_iq.Topology.Path.{Adjacency, last, enqueue}
use code_iq.Topology.Path.Walks.{Edge, Walk, IsPathFrom}

-- The queue holds paths of at most two lengths, the shorter first.
abbrev pub IsNear : ℕ → List Text → Type 0
IsNear k r = (k ≤ length r) × (length r ≤ suc k)

abbrev pub IsGraded : List (List Text) → Type 0
IsGraded [] = Unit
IsGraded (p ∷ q) = All (IsNear (length p)) q × IsGraded q

IsGraded-append :
    (k : ℕ) (q : List (List Text)) (r : List Text)
    → length r ≡ suc k
    → All (IsNear k) q
    → IsGraded q
    → IsGraded (q ++ r ∷ [])
IsGraded-append k [] r h a g = (tt, tt)
IsGraded-append k (p ∷ q) r h a g = (
  All-append (IsNear (length p)) q (r ∷ []) g.0 (omega (arith, h, a.0)),
  IsGraded-append k q r h a.1 g.1,
)

pub IsGraded-enqueue :
    (path ns : List Text) (q : List (List Text)) (vis : List Text)
    → ((n : Text) → length (path ++ n ∷ []) ≡ suc (length path))
    → All (IsNear (length path)) q
    → IsGraded q
    → IsGraded (enqueue path ns q vis).0
unfolding enqueue
IsGraded-enqueue path [] q vis long a g = g
IsGraded-enqueue path (n ∷ ns) q vis long a g = elim (Bool-cases (contains n vis)) [
  | inl old ↦ rw (old, enqueue) (IsGraded-enqueue path ns q vis long a g)
  | inr new ↦
      rw (new, enqueue)
        (IsGraded-enqueue path ns (q ++ (path ++ n ∷ []) ∷ []) (n ∷ vis) long
          (All-append (IsNear (length path)) q ((path ++ n ∷ []) ∷ []) a (omega (arith, long n)))
          (IsGraded-append (length path) q (path ++ n ∷ []) (long n) a g))
]

module _ (adj : Adjacency) (source target : Text) where
  -- No walk to the path's end is shorter.
  abbrev pub IsShortest : List Text → Type 0
  IsShortest p = (n : ℕ) → Walk adj n source (last p) → length p ≤ suc n

  pub record Inv (q : List (List Text)) (vis : List Text) : Type 0 where
    pub start : contains source vis ≡ true
    pub closed :
        (u v : Text)
        → contains u vis ≡ true
        → Edge adj u v
        → (contains u (map last q) ≡ true) ⊎ (contains v vis ≡ true)
    pub fresh : (u : Text) → contains u vis ≡ true → (contains u (map last q) ≡ true) ⊎ (u ≢ target)
    pub paths : All (IsPathFrom adj source) q
    pub shortest : All IsShortest q
    pub graded : IsGraded q

  pub at_last :
      {P : List Text → Type 0} (u : Text) (q : List (List Text))
      → All P q
      → contains u (map last q) ≡ true
      → (r : List Text) × P r × (last r ≡ u)
  at_last u [] h c = cc
  at_last u (r ∷ q) h c = elim (Bool-cases (u == last r)) [
    | inl here ↦ (r, h.0, ground (arith, text_beq_iff u (last r)))
    | inr there ↦ at_last u q h.1 (ground arith)
  ]

  -- A walk out of the visited set goes through the queue.
  pub frontier :
      (q : List (List Text)) (vis : List Text)
      → Inv q vis
      → (m : ℕ) (v : Text) → Walk adj m source v
      → contains v vis ≡ false
      → (k : ℕ) × (u : Text) × (suc k ≤ m) × Walk adj k source u × (contains u (map last q) ≡ true)
  frontier q vis h zero v w c = cc (h.start)
  frontier q vis h (suc m) v (u, w, e) c = elim (Bool-cases (contains u vis)) [
    | inl old ↦ elim (h.closed u v old e) [
      | inl queued ↦ (m, u, omega arith, w, queued)
      | inr seen ↦ cc
    ]
    | inr new ↦
        let (k, x, less, walk, queued) = frontier q vis h m u w new in
        (k, x, omega (arith, less), walk, queued)
  ]
