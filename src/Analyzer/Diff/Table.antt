-- ===== src/Analyzer/Diff/Table.antt =====
-- The table `files` of internal/cache, and what internal/analyzer/analyzer.go does to it. Its rows
-- stand in the order in which they were inserted; a call of the database that fails is not
-- represented.
use mathlib.Core.Logic.Or
use mathlib.Core.List.{
  foldl, Pairwise, Mem, mem-cons_self, mem-cons_of_mem, eq-or-mem_of_mem-cons, not-mem-nil,
}
use code_iq.Base.{
  ◌≡◌, refl, sym, ap, ◌∙◌, ◌≢◌, inl, inr, Bool, false, not, ◌&&◌, Option, none, some, List, [], ◌∷◌,
  ◌++◌, ◌==◌, map, keep, contains, arith, Bool-cases, Option-cases, subst, if◌then◌else◌,
}
use code_iq.Base.Text.{Text, text_eq, text_beq_iff}
use code_iq.Base.Assoc.{lookup}
use code_iq.Analyzer.Diff.{DiskFile, Cached}

-- `DELETE FROM files WHERE path = ?`
abbrev pub purge_by_path : Text → Cached → Cached
purge_by_path path rows = keep (λ r. not (r.0 == path)) rows

-- `Put` on the table: the row of the same hash goes, whatever its path, and the new one comes.
abbrev pub put_row : Text → Text → Cached → Cached
put_row path hash rows = keep (λ r. not (r.1 == hash)) rows ++ (path, hash) ∷ []

-- `Has`
abbrev pub has_hash : Text → Cached → Bool
has_hash hash rows = contains hash (map (λ r. r.1) rows)

-- `processFile` on the table: nothing if the content is known and a new analysis is not forced.
abbrev pub store_hash : Bool → Text → Text → Cached → Cached
store_hash force path hash rows =
    if not force && has_hash hash rows then rows else put_row path hash (purge_by_path path rows)

-- A file that cannot be read is passed over.
abbrev pub store_file : Bool → Cached → DiskFile → Cached
store_file force rows f = elim f.hash [
  | none ↦ rows
  | some hash ↦ store_hash force f.rel_path hash rows
]

-- A run with a new cache, over the files in the order in which the workers come to them.
abbrev pub store_all : Bool → List DiskFile → Cached
store_all force = foldl (store_file force) []

-- Two files with different paths, and different contents if both can be read.
abbrev pub IsApart : DiskFile → DiskFile → Type 0
IsApart f g = (f.rel_path ≢ g.rel_path) × ((h : Text) → f.hash ≡ some h → g.hash ≢ some h)

lookup-purge :
    (p q : Text) (rows : Cached) → p ≢ q → lookup p (purge_by_path q rows) ≡ lookup p rows
unfolding lookup
lookup-purge p q [] ne = refl
lookup-purge p q ((k, h) ∷ rows) ne =
    ground (arith, lookup-purge p q rows ne, text_beq_iff k q, text_beq_iff k p)

lookup-purged : (p : Text) (rows : Cached) → lookup p (purge_by_path p rows) ≡ none
unfolding lookup
lookup-purged p [] = refl
lookup-purged p ((k, h) ∷ rows) = ground (arith, lookup-purged p rows)

lookup-put_other :
    (p q k h : Text) (rows : Cached)
    → lookup p rows ≡ some k
    → k ≢ h
    → lookup p (put_row q h rows) ≡ some k
unfolding lookup
lookup-put_other p q k h [] there ne = cc
lookup-put_other p q k h ((j, i) ∷ rows) there ne =
    ground (arith, lookup-put_other p q k h rows, text_beq_iff j p, text_beq_iff i h)

lookup-put_new :
    (p h : Text) (rows : Cached) → lookup p rows ≡ none → lookup p (put_row p h rows) ≡ some h
unfolding lookup
lookup-put_new p h [] away = ground (arith, text_beq_iff p p)
lookup-put_new p h ((j, i) ∷ rows) away = ground (arith, lookup-put_new p h rows)

store_hash-other :
    (force : Bool) (p q k h : Text) (rows : Cached)
    → p ≢ q
    → k ≢ h
    → lookup p rows ≡ some k
    → lookup p (store_hash force q h rows) ≡ some k
store_hash-other force p q k h rows apart differ there =
    elim (Bool-cases (not force && has_hash h rows)) [
      | inl known ↦ rw known there
      | inr new ↦ rw new (
          lookup-put_other p q k h (purge_by_path q rows) (lookup-purge p q rows apart ∙ there)
            differ)
    ]

-- A row stays while files apart from its own are stored.
kept :
    (force : Bool) (g : DiskFile) (k : Text) (files : List DiskFile) (rows : Cached)
    → g.hash ≡ some k
    → ((f : DiskFile) → Mem f files → IsApart g f)
    → lookup g.rel_path rows ≡ some k
    → lookup g.rel_path (foldl (store_file force) rows files) ≡ some k
kept force g k [] rows own apart there = there
kept force g k (f ∷ files) rows own apart there =
    let (ne, differ) = apart f mem-cons_self in
    let next : lookup g.rel_path (store_file force rows f) ≡ some k = elim (Option-cases f.hash) [
      | inl unread ↦ rw unread there
      | inr (h, read) ↦ rw read (
          store_hash-other force g.rel_path f.rel_path k h rows ne
            (λ e. differ k own (read ∙ ap some (sym e))) there)
    ] in
    kept force g k files (store_file force rows f) own (λ d m. apart d (mem-cons_of_mem f m)) next

has_hash-keep :
    (k : Text) (test : Text × Text → Bool) (rows : Cached)
    → has_hash k rows ≡ false
    → has_hash k (keep test rows) ≡ false
has_hash-keep k test [] h = refl
has_hash-keep k test (r ∷ rows) h = ground (arith, has_hash-keep k test rows)

has_hash-snoc :
    (k p h : Text) (rows : Cached)
    → has_hash k rows ≡ false
    → k ≢ h
    → has_hash k (rows ++ (p, h) ∷ []) ≡ false
has_hash-snoc k p h [] away ne = ground (arith, text_beq_iff k h)
has_hash-snoc k p h (r ∷ rows) away ne = ground (arith, has_hash-snoc k p h rows)

-- Storing a file with another content brings no row of this one.
has_hash-store :
    (force : Bool) (k : Text) (rows : Cached) (f : DiskFile)
    → f.hash ≢ some k
    → has_hash k rows ≡ false
    → has_hash k (store_file force rows f) ≡ false
has_hash-store force k rows f ne away = elim (Option-cases f.hash) [
  | inl unread ↦ rw unread away
  | inr (h, read) ↦ elim (Bool-cases (not force && has_hash h rows)) [
    | inl known ↦ rw (read, known) away
    | inr new ↦
        let purged = purge_by_path f.rel_path rows in
        rw (read, new)
          (has_hash-snoc k f.rel_path h (keep (λ r. not (r.1 == h)) purged)
            (has_hash-keep k (λ r. not (r.1 == h)) purged
              (has_hash-keep k (λ r. not (r.0 == f.rel_path)) rows away))
            (λ e. ne (read ∙ ap some (sym e))))
  ]
]

lookup_prop : (o p : Option Text) → IsProp (o ≡ p)
lookup_prop o p = hlevel

-- The row of a file with a content that the table does not have.
stored :
    (force : Bool) (f : DiskFile) (k : Text) (rows : Cached)
    → f.hash ≡ some k
    → has_hash k rows ≡ false
    → lookup f.rel_path (store_file force rows f) ≡ some k
stored force f k rows own away =
    let missing_hash : (not force && has_hash k rows) ≡ false = ground arith in
    rw (own, missing_hash)
      (lookup-put_new f.rel_path k (purge_by_path f.rel_path rows) (lookup-purged f.rel_path rows))

-- Every readable file has its row.
pub lookup-store :
    (force : Bool) (files : List DiskFile) (rows : Cached)
    → Pairwise IsApart files
    → ((f : DiskFile) (k : Text) → Mem f files → f.hash ≡ some k → has_hash k rows ≡ false)
    → (g : DiskFile) (k : Text) → Mem g files
    → g.hash ≡ some k
    → lookup g.rel_path (foldl (store_file force) rows files) ≡ some k
lookup-store force [] rows d away g k m own = absurd (not-mem-nil m)
lookup-store force (f ∷ files) rows (Pairwise.cons h d) away g k m own =
    Or.elim (lookup_prop _ _) (eq-or-mem_of_mem-cons m)
      (λ e.
        let mine : f.hash ≡ some k = subst (λ x. x.hash ≡ some k) e own in
        subst (λ x. lookup x.rel_path (foldl (store_file force) rows (f ∷ files)) ≡ some k) (sym e)
          (kept force f k files (store_file force rows f) mine h
            (stored force f k rows mine (away f k mem-cons_self mine))))
      (λ later.
        lookup-store force files (store_file force rows f) d
          (λ x j n its.
            has_hash-store force j rows f (λ e. (h x n).1 j e its)
              (away x j (mem-cons_of_mem f n) its))
          g k later own)
