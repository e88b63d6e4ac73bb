-- ===== src/Analyzer/Diff/Stored.antt =====
-- A second comparison, after an analysis has stored its files, finds nothing to do.
use mathlib.Core.List.{Perm}
use mathlib.Core.List.Perm
use mathlib.Core.List.{foldl, Pairwise, Mem, mem-cons_self, mem-cons_of_mem}
use code_iq.Base.{
  ◌≡◌, refl, sym, ap, ◌∙◌, inl, inr, Bool, true, false, not, ◌||◌, ◌&&◌, some, List, [], ◌∷◌, ◌==◌,
  map, keep, contains, arith, Bool-cases, Option-cases,
}
use code_iq.Base.Text.{Text, text_eq, text_beq_iff}
use code_iq.Base.Assoc.{keys, lookup}
use code_iq.Base.Members.{contains-perm}
use code_iq.Analyzer.Diff.{DiskFile, Cached, compare_files}
use code_iq.Analyzer.Diff.Laws.{is_new, is_changed, paths_of, compare_files_lem}
use code_iq.Analyzer.Diff.Table.{
  purge_by_path, put_row, has_hash, store_file, store_all, IsApart, lookup-store,
}

-- A file that is stored under its own hash is neither new nor changed.
settled :
    (cache : Cached) (f : DiskFile)
    → ((k : Text) → f.hash ≡ some k → lookup f.rel_path cache ≡ some k)
    → (is_new cache f ≡ false) × (is_changed cache f ≡ false)
settled cache f h = elim (Option-cases f.hash) [
  | inl unread ↦ ground arith
  | inr (hash, read) ↦ ground (arith, text_beq_iff hash hash, h hash read)
]

paths_of-none :
    (cache : Cached) (files : List DiskFile)
    → ((g : DiskFile) (k : Text) → Mem g files → g.hash ≡ some k → lookup g.rel_path cache ≡ some k)
    → (paths_of (is_new cache) files ≡ []) × (paths_of (is_changed cache) files ≡ [])
paths_of-none cache [] h = (refl, refl)
paths_of-none cache (f ∷ files) h =
    let (new, changed) = settled cache f (λ k own. h f k mem-cons_self own) in
    let rest = paths_of-none cache files (λ g k m own. h g k (mem-cons_of_mem f m) own) in
    (rw new rest.0, rw changed rest.1)

or_left : (a b : Bool) → a ≡ true → (a || b) ≡ true
or_left a b h = ground arith

or_mono : (a b c : Bool) → (a ≡ true → b ≡ true) → (a || c) ≡ true → (b || c) ≡ true
or_mono a b c f h = ground arith

or_later :
    (a b c d : Bool) → (a ≡ true → (b || c) ≡ true) → (a || d) ≡ true → (b || (c || d)) ≡ true
or_later a b c d f h = ground arith

contains-kept :
    (p : Text) (test : Text × Text → Bool) (rows : Cached)
    → contains p (keys (keep test rows)) ≡ true
    → contains p (keys rows) ≡ true
contains-kept p test [] h = cc
contains-kept p test (r ∷ rows) h = ground (arith, contains-kept p test rows)

contains-put :
    (p q h : Text) (rows : Cached)
    → contains p (keys (put_row q h rows)) ≡ true
    → (contains p (keys rows) || p == q) ≡ true
contains-put p q h [] m = ground arith
contains-put p q h (r ∷ rows) m = ground (arith, contains-put p q h rows)

contains-store_file :
    (force : Bool) (p : Text) (f : DiskFile) (rows : Cached)
    → contains p (keys (store_file force rows f)) ≡ true
    → (contains p (keys rows) || p == f.rel_path) ≡ true
contains-store_file force p f rows h = elim (Option-cases f.hash) [
  | inl unread ↦
      let same : store_file force rows f ≡ rows = rw unread refl in
      or_left (contains p (keys rows)) (p == f.rel_path)
        (sym (ap (λ l. contains p (keys l)) same) ∙ h)
  | inr (hash, read) ↦ elim (Bool-cases (not force && has_hash hash rows)) [
    | inl known ↦
        let same : store_file force rows f ≡ rows = rw (read, known) refl in
        or_left (contains p (keys rows)) (p == f.rel_path)
          (sym (ap (λ l. contains p (keys l)) same) ∙ h)
    | inr new ↦
        let same : store_file force rows f
            ≡ put_row f.rel_path hash (purge_by_path f.rel_path rows) =
          rw (read, new) refl in
        or_mono (contains p (keys (purge_by_path f.rel_path rows))) (contains p (keys rows))
          (p == f.rel_path) (contains-kept p (λ r. not (r.0 == f.rel_path)) rows)
          (contains-put p f.rel_path hash (purge_by_path f.rel_path rows)
            (sym (ap (λ l. contains p (keys l)) same) ∙ h))
  ]
]

-- The rows stand under old paths and paths of the files.
contains-store :
    (force : Bool) (p : Text) (files : List DiskFile) (rows : Cached)
    → contains p (keys (foldl (store_file force) rows files)) ≡ true
    → (contains p (keys rows) || contains p (map (λ f. f.rel_path) files)) ≡ true
contains-store force p [] rows h = or_left (contains p (keys rows)) false h
contains-store force p (f ∷ files) rows h =
    or_later (contains p (keys (store_file force rows f))) (contains p (keys rows))
      (p == f.rel_path) (contains p (map (λ x. x.rel_path) files))
      (contains-store_file force p f rows)
      (contains-store force p files (store_file force rows f) h)

keep-none :
    (test : Text → Bool) (paths : List Text)
    → ((p : Text) → contains p paths ≡ true → test p ≡ false)
    → keep test paths ≡ []
keep-none test [] h = refl
keep-none test (p ∷ paths) h =
    ground (arith, text_beq_iff p p, h p, keep-none test paths (λ q m. h q (ground arith)))

-- Once a run with a new cache, forced or not, has come to the files that discovery finds, in
-- whatever order, and they are found again with the same contents, a comparison finds nothing added,
-- nothing modified and nothing deleted, provided no two files have the same path and no two readable
-- ones the same content.
pub compare_files-store_all :
    (force : Bool) (files order : List DiskFile)
    → Perm order files
    → Pairwise IsApart order
    → ((compare_files files (store_all force order)).added ≡ [])
      × ((compare_files files (store_all force order)).modified ≡ [])
      × ((compare_files files (store_all force order)).deleted ≡ [])
compare_files-store_all force files order p d =
    let cache = store_all force order in
    let paths = λ (l : List DiskFile). map (λ f. f.rel_path) l in
    let (added, modified, unchanged, deleted, members) = compare_files_lem files cache in
    let (new, changed) = paths_of-none cache files (λ g k m own.
      lookup-store force order [] d (λ f j n its. refl) g k ((Perm.mem_iff p).1 m) own) in
    (
      added ∙ new,
      modified ∙ changed,
      deleted
          ∙ keep-none (λ q. not (contains q (paths files))) (keys cache)
              (λ q m. ap not (
                sym (contains-perm q (Perm.map (λ (f : DiskFile). f.rel_path) p))
                ∙ contains-store force q order [] m)),
    )
