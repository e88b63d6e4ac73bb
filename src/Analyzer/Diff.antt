-- ===== src/Analyzer/Diff.antt =====
-- internal/analyzer/diff.go. The files that discovery finds come with the hash of their content,
-- or without one where reading fails; the cache is the map of its rows, path to hash.
pub mod Laws
pub mod Table
pub mod Stored
use mathlib.Core.List.{foldl}
use code_iq.Base.{
  Bool, true, false, not, Option, none, some, List, [], ◌∷◌, ◌++◌, ◌==◌, map, keep, contains,
  if◌then◌else◌,
}
use code_iq.Base.Text.{Text, text_eq}
use code_iq.Base.Assoc.{keys, lookup}

pub record DiskFile : Type 0 where
  pub rel_path : Text
  pub hash : Option Text

pub record Delta : Type 0 where
  pub added : List Text
  pub modified : List Text
  pub deleted : List Text
  pub unchanged : List Text

abbrev pub Cached : Type 0
Cached = List (Text × Text)

-- The body of the loop over the files.
unfoldable pub place : Cached → Delta → DiskFile → Delta
place cache d f = elim f.hash [
  | none ↦ d
  | some hash ↦ elim (lookup f.rel_path cache) [
    | none ↦ record d { added = d.added ++ f.rel_path ∷ [] }
    | some known ↦
        if known == hash
        then record d { unchanged = d.unchanged ++ f.rel_path ∷ [] }
        else record d { modified = d.modified ++ f.rel_path ∷ [] }
  ]
]

-- The callback of `AllFiles`, over all rows.
abbrev pub missing : List DiskFile → Cached → List Text
missing files cache = keep (λ p. not (contains p (map (λ f. f.rel_path) files))) (keys cache)

abbrev pub no_delta : Delta
no_delta = record { added = []; modified = []; deleted = []; unchanged = [] }

pub data DiffResult : Type 0 where
  delta : Delta → DiffResult
  cache_required discovery_failed : DiffResult

unfoldable pub compare_files : List DiskFile → Cached → Delta
unfolding place
compare_files files cache =
    let d = foldl (place cache) no_delta files in
    record d { deleted = d.deleted ++ missing files cache }

unfoldable pub diff : Option Cached → Option (List DiskFile) → DiffResult
unfolding compare_files
diff none files = cache_required
diff (some cache) none = discovery_failed
diff (some cache) (some files) = delta (compare_files files cache)
