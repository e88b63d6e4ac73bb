-- ===== src/Topology/Path/Round.antt =====
-- One round of the search: what `enqueue` adds to the queue and to the visited set.
use code_iq.Base.{
  ℕ, suc, ◌+◌, ◌≤◌, ◌≡◌, refl, inl, inr, true, false, not, ◌&&◌, ◌||◌, List, [], ◌∷◌, ◌++◌, map,
  contains, length, length-append, keep, All, All-append, arith, Bool-cases, ◌==◌,
}
use code_iq.Base.Text.{Text, text_eq, text_beq_iff}
use code_iq.Topology.Path.{last, enqueue}

-- The targets that have not been visited.
abbrev pub unseen : List Text → List Text → ℕ
unseen targets visited = length (keep (λ t. not (contains t visited)) targets)

unseen_mono : (n : Text) (ts vis : List Text) → unseen ts (n ∷ vis) ≤ unseen ts vis
unseen_mono n [] vis = omega arith
unseen_mono n (t ∷ ts) vis = ground (arith, unseen_mono n ts vis)

unseen-visit :
    (n : Text) (ts vis : List Text)
    → contains n ts ≡ true
    → contains n vis ≡ false
    → suc (unseen ts (n ∷ vis)) ≤ unseen ts vis
unseen-visit n [] vis h k = cc
unseen-visit n (t ∷ ts) vis h k =
    ground (arith, unseen_mono n ts vis, unseen-visit n ts vis, text_beq_iff n t, text_beq_iff t n)

-- The visited set grows by the neighbours.
pub contains-visited :
    (u : Text) (path ns : List Text) (q : List (List Text)) (vis : List Text)
    → contains u (enqueue path ns q vis).1 ≡ (contains u vis || contains u ns)
unfolding enqueue
contains-visited u path [] q vis = ground arith
contains-visited u path (n ∷ ns) q vis = ground (
  arith,
  text_beq_iff u n,
  contains-visited u path ns q vis,
  contains-visited u path ns (q ++ (path ++ n ∷ []) ∷ []) (n ∷ vis),
)

last-append : (path : List Text) (n : Text) → last (path ++ n ∷ []) ≡ n
last-append [] n = refl
last-append (x ∷ []) n = refl
last-append (x ∷ y ∷ path) n = last-append (y ∷ path) n

contains-map-append :
    (u : Text) (q : List (List Text)) (p : List Text)
    → contains u (map last (q ++ p ∷ [])) ≡ (contains u (map last q) || u == last p)
contains-map-append u [] p = ground arith
contains-map-append u (r ∷ q) p = ground (arith, contains-map-append u q p)

-- The queue keeps its paths, and gets one to each neighbour that was not visited.
pub contains-queue :
    (u : Text) (path ns : List Text) (q : List (List Text)) (vis : List Text)
    → contains u (map last (enqueue path ns q vis).0)
      ≡ (contains u (map last q) || (contains u ns && not (contains u vis)))
unfolding enqueue
contains-queue u path [] q vis = ground arith
contains-queue u path (n ∷ ns) q vis = ground (
  arith,
  text_beq_iff u n,
  last-append path n,
  contains-map-append u q (path ++ n ∷ []),
  contains-queue u path ns q vis,
  contains-queue u path ns (q ++ (path ++ n ∷ []) ∷ []) (n ∷ vis),
)

-- Each path that is queued uses up a target that was not visited.
pub enqueue-work :
    (ts path ns : List Text) (q : List (List Text)) (vis : List Text)
    → ((t : Text) → contains t ns ≡ true → contains t ts ≡ true)
    → length (enqueue path ns q vis).0 + unseen ts (enqueue path ns q vis).1
      ≤ length q + unseen ts vis
unfolding enqueue
enqueue-work ts path [] q vis h = omega arith
enqueue-work ts path (n ∷ ns) q vis h =
    let later = λ (t : Text) (m : contains t ns ≡ true). h t (ground arith) in
    let hit = h n (ground (arith, text_beq_iff n n)) in
    ground (
      arith,
      unseen-visit n ts vis hit,
      length-append q ((path ++ n ∷ []) ∷ []),
      enqueue-work ts path ns q vis later,
      enqueue-work ts path ns (q ++ (path ++ n ∷ []) ∷ []) (n ∷ vis) later,
    )

-- A property of the queued paths that the new paths have too.
pub enqueue-All {κ} :
    (P : List Text → Type κ) (path ns : List Text) (q : List (List Text)) (vis : List Text)
    → All P q
    → ((n : Text) → contains n ns ≡ true → contains n vis ≡ false → P (path ++ n ∷ []))
    → All P (enqueue path ns q vis).0
unfolding enqueue
enqueue-All P path [] q vis h k = h
enqueue-All P path (n ∷ ns) q vis h k = elim (Bool-cases (contains n vis)) [
  | inl old ↦ rw (old, enqueue) (enqueue-All P path ns q vis h (λ m c. k m (ground arith)))
  | inr new ↦
      rw (new, enqueue)
        (enqueue-All P path ns (q ++ (path ++ n ∷ []) ∷ []) (n ∷ vis)
          (All-append P q ((path ++ n ∷ []) ∷ []) h
            (k n (ground (arith, text_beq_iff n n)) new, tt))
          (λ m c f. k m (ground arith) (ground arith)))
]
