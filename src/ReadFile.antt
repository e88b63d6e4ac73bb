-- ===== src/ReadFile.antt =====
-- internal/mcp/read_file.go: serving a file of the repository. What the operating system answers is
-- an argument (Files); a line number that is not positive is 0, and so is a byte cap.
pub mod Inversion
pub mod Lines
pub mod Safe
use code_iq.Base.{
  ℕ, zero, suc, ◌+◌, ◌-◌, ◌*◌, Bool, true, false, not, ◌&&◌, ◌||◌, Option, none, some, List, [],
  ◌∷◌, ◌++◌, ◌==◌, any, ltb, nat_beq, length, take, is_nonempty, if◌then◌else◌,
}
use code_iq.Base.Text.{Text, text_eq, lit, has_prefix, trim_space}
use code_iq.Base.Text.Search.{cut_byte}

pub record ReadFileRequest : Type 0 where
  pub root : Text
  pub path : Text
  pub start_line : ℕ
  pub end_line : ℕ
  pub max_bytes : ℕ

pub record ReadFileResponse : Type 0 where
  pub path : Text
  pub content : Text
  pub truncated : Bool
  pub start_line : ℕ
  pub end_line : ℕ
  pub mime_type : Text

-- An open file: what the type detection says of its first bytes, whether it can be read from the
-- start again, the pieces and the lines that reading gives, and whether reading ends with an error.
pub record OpenFile : Type 0 where
  pub mime : Text
  pub rewinds : Bool
  pub pieces : List Text
  pub lines : List Text
  pub fails : Bool

-- What the file system and the platform's path functions answer; `none` is an error.
pub record Files : Type 0 where
  pub is_abs : Text → Bool
  pub abs : Text → Option Text
  pub eval_symlinks : Text → Option Text
  pub clean_join : Text → Text → Text
  pub stat_is_dir : Text → Option Bool
  pub open_file : Text → Option OpenFile

-- One constructor for each error that `ReadRepoFile` returns.
pub data ReadError : Type 0 where
  root_required path_required path_not_relative root_unresolved root_not_canonical : ReadError
  lexical_traversal path_unresolved symlink_traversal stat_failed is_directory : ReadError
  open_failed rejected_type rewind_failed read_failed : ReadError

pub data Result (A : Type 0) : Type 0 where
  ok : A → Result A
  err : ReadError → Result A

abbrev pub allowed_mime_prefixes : List Text
allowed_mime_prefixes =
    lit "text/"
    ∷ lit "application/json"
    ∷ lit "application/xml"
    ∷ lit "application/x-yaml"
    ∷ lit "application/javascript"
    ∷ []

-- At or under the parent.
unfoldable pub path_contains : Text → Text → Bool
path_contains parent child = parent == child || has_prefix child (parent ++ lit "/")

unfoldable pub trim_mime_suffix : Text → Text
trim_mime_suffix mime = elim (cut_byte 59 mime) [
  | none ↦ mime
  | some (front, back) ↦ trim_space front
]

unfoldable pub is_allowed_mime : Text → Bool
unfolding trim_mime_suffix
is_allowed_mime mime = any (λ p. has_prefix (trim_mime_suffix mime) p) allowed_mime_prefixes

-- `if bad { return err }`, and a call that can fail.
abbrev pub unless : {A : Type 0} → Bool → ReadError → Result A → Result A
unless true e rest = err e
unless false e rest = rest

abbrev pub try : {A B : Type 0} → Option A → ReadError → (A → Result B) → Result B
try none e rest = err e
try (some a) e rest = rest a

-- `readWholeFile`: the pieces that fit, and whether something was cut off.
unfoldable pub whole_file : ℕ → Bool → List Text → Text → Result (Text × Bool)
whole_file max fails [] buf = if fails then err read_failed else ok (buf, false)
whole_file max fails (piece ∷ pieces) buf = elim (ltb (max - length buf) (length piece)) [
  | true ↦ ok (buf ++ take (max - length buf) piece, true)
  | false ↦ whole_file max fails pieces (buf ++ piece)
]

-- What the loop of `readLineRange` leaves.
pub record LineRange : Type 0 where
  pub content : Text
  pub last_line : ℕ
  pub truncated : Bool

-- The loop, with so many lines read.
unfoldable pub line_range : ReadFileRequest → Bool → ℕ → List Text → Text → ℕ → Result LineRange
line_range req fails ln [] out last =
    if fails
    then err read_failed
    else ok (record { content = out; last_line = last; truncated = false })
line_range req fails ln (line ∷ lines) out last =
    elim (ltb 0 req.start_line && ltb (suc ln) req.start_line) [
      | true ↦ line_range req fails (suc ln) lines out last
      | false ↦ elim (ltb 0 req.end_line && ltb req.end_line (suc ln)) [
        | true ↦ ok (record { content = out; last_line = last; truncated = false })
        | false ↦ elim (ltb req.max_bytes (length out + length line + 1)) [
          | true ↦ ok (record { content = out; last_line = last; truncated = true })
          | false ↦ line_range req fails (suc ln) lines (out ++ (line ++ 10 ∷ [])) (suc ln)
        ]
      ]
    ]

abbrev pub then_respond : {A : Type 0} → (A → ReadFileResponse) → Result A → Result ReadFileResponse
then_respond f (ok a) = ok (f a)
then_respond f (err e) = err e

abbrev pub whole_response : ReadFileRequest → Text → Text × Bool → ReadFileResponse
whole_response req mime (content, truncated) = record {
  path = req.path;
  content = content;
  truncated = truncated;
  start_line = 0;
  end_line = 0;
  mime_type = trim_mime_suffix mime;
}

abbrev pub range_response : ReadFileRequest → Text → LineRange → ReadFileResponse
range_response req mime r = record {
  path = req.path;
  content = r.content;
  truncated = r.truncated;
  start_line = req.start_line;
  end_line = if ltb 0 req.end_line then req.end_line else r.last_line;
  mime_type = trim_mime_suffix mime;
}

-- Reading, once the file is open.
unfoldable pub read_open : ReadFileRequest → OpenFile → Result ReadFileResponse
unfolding whole_file line_range trim_mime_suffix
read_open req f =
    if ltb 0 req.start_line || ltb 0 req.end_line
    then then_respond (range_response req f.mime) (line_range req f.fails 0 f.lines [] 0)
    else then_respond (whole_response req f.mime) (whole_file req.max_bytes f.fails f.pieces [])

-- A cap that is not positive is one mebibyte.
abbrev pub with_cap : ReadFileRequest → ReadFileRequest
with_cap req = record req { max_bytes = if nat_beq req.max_bytes 0 then 1048576 else req.max_bytes }

module _ (files : Files) where
  -- From the open call on.
  unfoldable pub read_resolved : ReadFileRequest → Text → Result ReadFileResponse
  unfolding is_allowed_mime read_open
  read_resolved req resolved = try (files.stat_is_dir resolved) stat_failed (λ is_dir.
      unless is_dir is_directory (
        try (files.open_file resolved) open_failed (λ f.
          unless (not (is_allowed_mime f.mime)) rejected_type
            (unless (not f.rewinds) rewind_failed (read_open req f)))))

  -- The two containment checks, before and after the links are followed.
  unfoldable pub read_under : ReadFileRequest → Text → Result ReadFileResponse
  unfolding path_contains read_resolved
  read_under req root =
      unless (not (path_contains root (files.clean_join root req.path))) lexical_traversal (
        try (files.eval_symlinks (files.clean_join root req.path)) path_unresolved (λ resolved.
          unless (not (path_contains root resolved)) symlink_traversal
            (read_resolved req resolved)))

  unfoldable pub read_repo_file : ReadFileRequest → Result ReadFileResponse
  unfolding read_under
  read_repo_file req = unless (not (is_nonempty req.root)) root_required (
      unless (not (is_nonempty req.path)) path_required (
        unless (files.is_abs req.path) path_not_relative (
          try (files.abs req.root) root_unresolved (λ root_abs.
            try (files.eval_symlinks root_abs) root_not_canonical
              (λ root. read_under (with_cap req) root)))))
