-- ===== src/Review.antt =====
-- internal/review/diff.go: reading the output of `git diff`. A line is what the scanner gives: no
-- line feed at its end; a line beyond the scanner's 16 MiB is not represented.
pub mod Printed
pub mod Parsed
pub mod Roundtrip
use mathlib.Core.List.{foldl}
use code_iq.Base.{
  ℕ, suc, Bool, true, false, not, ◌&&◌, Option, none, some, List, [], ◌∷◌, ◌++◌, is_nonempty,
  length, if◌then◌else◌,
}
use code_iq.Base.Text.{Text, lit, has_prefix}
use code_iq.Base.Text.Search.{cut_byte, drop}

pub record ChangedFile : Type 0 where
  pub path : Text
  pub hunks : List Text
  pub added_lines : ℕ
  pub removed_lines : ℕ

-- The variables of `ParseDiff`.
pub record Scan : Type 0 where
  pub files : List ChangedFile
  pub cur : Option ChangedFile
  pub hunk_buf : Text

abbrev pub changed_file : Text → ChangedFile
changed_file path = record { path = path; hunks = []; added_lines = 0; removed_lines = 0 }

-- `flushHunk`
abbrev pub flush_into : Option ChangedFile → Text → Option ChangedFile × Text
flush_into none buf = (none, buf)
flush_into (some f) [] = (some f, [])
flush_into (some f) (c ∷ buf) = (some (record f { hunks = f.hunks ++ (c ∷ buf) ∷ [] }), [])

abbrev pub flush_hunk : Scan → Scan
flush_hunk s =
    let flushed = flush_into s.cur s.hunk_buf in record s { cur = flushed.0; hunk_buf = flushed.1 }

-- `files = append(files, *cur)`
abbrev pub push_current : List ChangedFile → Option ChangedFile → List ChangedFile
push_current files none = files
push_current files (some f) = files ++ f ∷ []

abbrev pub strip_prefix : Text → Text → Text
strip_prefix s prefix = if has_prefix s prefix then drop (length prefix) s else s

-- The last of the four parts that `strings.SplitN(line, " ", 4)` gives, if there are four.
abbrev pub after_space : Option (Text × Text) → Option Text
after_space none = none
after_space (some (front, back)) = some back

unfoldable pub fourth_part : Text → Option Text
fourth_part line = elim (after_space (cut_byte 32 line)) [
  | none ↦ none
  | some second ↦ elim (after_space (cut_byte 32 second)) [
    | none ↦ none
    | some third ↦ after_space (cut_byte 32 third)
  ]
]

unfoldable pub header_path : Text → Text
unfolding fourth_part has_prefix
header_path line = elim (fourth_part line) [ none ↦ [] | some part ↦ strip_prefix part (lit "b/") ]

abbrev pub set_path : Text → ChangedFile → ChangedFile
set_path path f = record f { path = path }

abbrev pub count_added : ChangedFile → ChangedFile
count_added f = record f { added_lines = suc f.added_lines }

abbrev pub count_removed : ChangedFile → ChangedFile
count_removed f = record f { removed_lines = suc f.removed_lines }

abbrev pub on_current : (ChangedFile → ChangedFile) → Option ChangedFile → Option ChangedFile
on_current f none = none
on_current f (some c) = some (f c)

-- `hunkBuf.WriteString(line)` and the newline.
abbrev pub write_line : Text → Text → Text
write_line buf line = buf ++ (line ++ 10 ∷ [])

-- The cases of the switch.
pub data LineKind : Type 0 where
  file_header new_path hunk_header added removed other : LineKind

unfoldable pub line_kind : Text → LineKind
unfolding has_prefix
line_kind line =
    if has_prefix line (lit "diff --git ")
    then file_header
    else if has_prefix line (lit "+++ b/")
    then new_path
    else if has_prefix line (lit "@@")
    then hunk_header
    else if has_prefix line (lit "+") && not (has_prefix line (lit "+++"))
    then added
    else if has_prefix line (lit "-") && not (has_prefix line (lit "---"))
    then removed
    else other

unfoldable pub scan_as : LineKind → Text → Scan → Scan
unfolding header_path
scan_as file_header line s =
    let flushed = flush_hunk s in
    record flushed {
      files = push_current flushed.files flushed.cur;
      cur = some (changed_file (header_path line));
    }
scan_as new_path line s = record s {
  cur = on_current (set_path (strip_prefix line (lit "+++ b/"))) s.cur;
}
scan_as hunk_header line s =
    let flushed = flush_hunk s in record flushed { hunk_buf = write_line flushed.hunk_buf line }
scan_as added line s = record s {
  cur = on_current count_added s.cur;
  hunk_buf = write_line s.hunk_buf line;
}
scan_as removed line s = record s {
  cur = on_current count_removed s.cur;
  hunk_buf = write_line s.hunk_buf line;
}
scan_as other line s =
    if is_nonempty s.hunk_buf then record s { hunk_buf = write_line s.hunk_buf line } else s

unfoldable pub scan_line : Scan → Text → Scan
unfolding line_kind scan_as
scan_line s line = scan_as (line_kind line) line s

abbrev pub finish_scan : Scan → List ChangedFile
finish_scan s = let flushed = flush_hunk s in push_current flushed.files flushed.cur

unfoldable pub parse_diff : List Text → List ChangedFile
unfolding scan_line
parse_diff lines =
    finish_scan (foldl scan_line (record { files = []; cur = none; hunk_buf = [] }) lines)
