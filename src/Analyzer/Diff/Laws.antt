-- ===== src/Analyzer/Diff/Laws.antt =====
-- Which bucket each path falls into.
use mathlib.Core.List.{foldl, append_assoc, append-nil}
use code_iq.Base.{
  ◌+◌, ◌≡◌, refl, sym, ap, ◌∙◌, inl, inr, Bool, true, false, not, none, some, List, [], ◌∷◌, ◌++◌,
  ◌==◌, map, keep, length, length-map, contains, ◌&&◌, subst, arith, Bool-cases,
}
use code_iq.Base.Text.{Text, text_eq, text_beq_iff}
use code_iq.Base.Assoc.{keys, lookup, has}
use code_iq.Base.Assoc.Distinct.{contains-keys}
use code_iq.Analyzer.Diff.{DiskFile, Delta, Cached, place, missing, no_delta, compare_files}

-- What the cache says of a readable file: nothing, its hash, or another one.
abbrev pub is_new : Cached → DiskFile → Bool
is_new cache f = elim f.hash [
  | none ↦ false
  | some hash ↦ elim (lookup f.rel_path cache) [ none ↦ true | some known ↦ false ]
]

abbrev pub is_same : Cached → DiskFile → Bool
is_same cache f = elim f.hash [
  | none ↦ false
  | some hash ↦ elim (lookup f.rel_path cache) [ none ↦ false | some known ↦ known == hash ]
]

abbrev pub is_changed : Cached → DiskFile → Bool
is_changed cache f = elim f.hash [
  | none ↦ false
  | some hash ↦ elim (lookup f.rel_path cache) [ none ↦ false | some known ↦ not (known == hash) ]
]

abbrev pub is_unreadable : DiskFile → Bool
is_unreadable f = elim f.hash [ none ↦ true | some hash ↦ false ]

-- The paths of the files that pass a test, in order.
abbrev pub paths_of : (DiskFile → Bool) → List DiskFile → List Text
paths_of test files = map (λ f. f.rel_path) (keep test files)

place-one :
    (cache : Cached) (d : Delta) (f : DiskFile)
    → ((place cache d f).added ≡ d.added ++ paths_of (is_new cache) (f ∷ []))
      × ((place cache d f).modified ≡ d.modified ++ paths_of (is_changed cache) (f ∷ []))
      × ((place cache d f).unchanged ≡ d.unchanged ++ paths_of (is_same cache) (f ∷ []))
      × ((place cache d f).deleted ≡ d.deleted)
unfolding place
place-one cache d f =
    ground (arith, append-nil d.added, append-nil d.modified, append-nil d.unchanged)

paths_of-cons :
    (test : DiskFile → Bool) (f : DiskFile) (files : List DiskFile)
    → paths_of test (f ∷ files) ≡ paths_of test (f ∷ []) ++ paths_of test files
paths_of-cons test f files = elim (Bool-cases (test f)) [
  | inl passes ↦ rw passes refl
  | inr fails ↦ rw fails refl
]

-- One bucket of the fold, from what one file adds to it.
bucket :
    (cache : Cached) (field : Delta → List Text) (test : DiskFile → Bool)
    → ((d : Delta) (f : DiskFile) → field (place cache d f) ≡ field d ++ paths_of test (f ∷ []))
    → (files : List DiskFile) (d : Delta)
    → field (foldl (place cache) d files) ≡ field d ++ paths_of test files
bucket cache field test one [] d = sym (append-nil (field d))
bucket cache field test one (f ∷ files) d =
    bucket cache field test one files (place cache d f)
    ∙ (ap (λ l. l ++ paths_of test files) (one d f)
        ∙ (append_assoc (field d) (paths_of test (f ∷ [])) (paths_of test files)
            ∙ ap (λ l. field d ++ l) (sym (paths_of-cons test f files))))

no_deleted :
    (cache : Cached) (files : List DiskFile) (d : Delta)
    → (foldl (place cache) d files).deleted ≡ d.deleted
no_deleted cache [] d = refl
no_deleted cache (f ∷ files) d = no_deleted cache files (place cache d f) ∙ (place-one cache d f).3

contains-keep :
    (p : Text) (test : Text → Bool) (l : List Text)
    → contains p (keep test l) ≡ (contains p l && test p)
contains-keep p test [] = refl
contains-keep p test (q ∷ l) = elim (Bool-cases (p == q)) [
  | inl here ↦
      let same : p ≡ q = (text_beq_iff p q).0 here in
      subst (λ r. contains p (keep test (r ∷ l)) ≡ (contains p (r ∷ l) && test p)) same
        (ground (arith, contains-keep p test l, text_beq_iff p p))
  | inr other ↦ ground (arith, contains-keep p test l)
]

-- Each bucket lists, in the order of discovery, the readable files of its class: new ones, ones
-- with another hash in the cache, ones with the same hash; and the deleted paths are, in the order
-- of the rows, those of the rows that stand under a path that discovery did not find, so that a
-- path is among them exactly if it has a row and was not found.
pub compare_files_lem :
    (files : List DiskFile) (cache : Cached)
    → ((compare_files files cache).added ≡ paths_of (is_new cache) files)
      × ((compare_files files cache).modified ≡ paths_of (is_changed cache) files)
      × ((compare_files files cache).unchanged ≡ paths_of (is_same cache) files)
      × ((compare_files files cache).deleted
          ≡ keep (λ p. not (contains p (map (λ f. f.rel_path) files))) (keys cache))
      × ((p : Text)
          → contains p (compare_files files cache).deleted
            ≡ (has p cache && not (contains p (map (λ f. f.rel_path) files))))
unfolding compare_files
compare_files_lem files cache = (
  bucket cache (λ d. d.added) (is_new cache) (λ d f. (place-one cache d f).0) files no_delta,
  bucket cache (λ d. d.modified) (is_changed cache) (λ d f. (place-one cache d f).1) files no_delta,
  bucket cache (λ d. d.unchanged) (is_same cache) (λ d f. (place-one cache d f).2) files no_delta,
  ap (λ l. l ++ missing files cache) (no_deleted cache files no_delta),
  λ p.
      ap (λ l. contains p (l ++ missing files cache)) (no_deleted cache files no_delta)
      ∙ (contains-keep p (λ q. not (contains q (map (λ f. f.rel_path) files))) (keys cache)
          ∙ ap (λ b. b && not (contains p (map (λ f. f.rel_path) files))) (contains-keys p cache)),
)

classes :
    (cache : Cached) (files : List DiskFile)
    → length (keep (is_new cache) files)
        + length (keep (is_changed cache) files)
        + length (keep (is_same cache) files)
        + length (keep is_unreadable files)
      ≡ length files
classes cache [] = omega arith
classes cache (f ∷ files) = ground (arith, classes cache files)

-- Every discovered file is reported once: as added, modified or unchanged, unless it cannot be
-- read.
pub compare_files-counts :
    (files : List DiskFile) (cache : Cached)
    → length (compare_files files cache).added
        + length (compare_files files cache).modified
        + length (compare_files files cache).unchanged
        + length (keep is_unreadable files)
      ≡ length files
compare_files-counts files cache =
    let (added, modified, unchanged, deleted, members) = compare_files_lem files cache in
    let size = λ (test : DiskFile → Bool). length-map (λ f. f.rel_path) (keep test files) in
    omega (
      arith,
      ap length added,
      ap length modified,
      ap length unchanged,
      size (is_new cache),
      size (is_changed cache),
      size (is_same cache),
      classes cache files,
    )
