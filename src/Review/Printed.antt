-- ===== src/Review/Printed.antt =====
-- Diffs in the format of `git diff`, as its documentation gives it. Not represented: paths with a
-- space, a tab, a quote or a byte that git quotes, and prefixes other than a/ and b/.
use code_iq.Base.{
  ◌≡◌, Bool, true, false, List, [], ◌∷◌, ◌++◌, map, flat, keep, length, contains, nat_eq, All,
}
use code_iq.Base.Text.{Text, lit, has_prefix}
use code_iq.Review.{ChangedFile, write_line}

-- A line of a hunk: the last two are an empty context line as diff.suppressBlankEmpty prints it, and
-- the mark of a line without a newline at the end of a file.
pub data BodyLine : Type 0 where
  plus minus context : Text → BodyLine
  blank no_newline : BodyLine

abbrev pub print_line : BodyLine → Text
print_line (plus t) = b'+' ∷ t
print_line (minus t) = b'-' ∷ t
print_line (context t) = b' ' ∷ t
print_line blank = []
print_line no_newline = b'\\' ∷ lit " No newline at end of file"

abbrev pub is_plus : BodyLine → Bool
is_plus (plus t) = true
is_plus _ = false

abbrev pub is_minus : BodyLine → Bool
is_minus (minus t) = true
is_minus _ = false

-- The text of a line does not make it look like the header of a file.
abbrev pub IsPlain : BodyLine → Type 0
IsPlain (plus t) = has_prefix t (lit "++") ≡ false
IsPlain (minus t) = has_prefix t (lit "--") ≡ false
IsPlain (context t) = Unit
IsPlain blank = Unit
IsPlain no_newline = Unit

pub record Hunk : Type 0 where
  pub range : Text
  pub body : List BodyLine

-- The extended header lines.
pub data HeaderLine : Type 0 where
  index_line old_mode new_mode new_file_mode deleted_file_mode : Text → HeaderLine
  similarity_index dissimilarity_index rename_from rename_to copy_from copy_to : Text → HeaderLine

abbrev pub print_header : HeaderLine → Text
print_header (index_line t) = lit "index " ++ t
print_header (old_mode t) = lit "old mode " ++ t
print_header (new_mode t) = lit "new mode " ++ t
print_header (new_file_mode t) = lit "new file mode " ++ t
print_header (deleted_file_mode t) = lit "deleted file mode " ++ t
print_header (similarity_index t) = lit "similarity index " ++ t
print_header (dissimilarity_index t) = lit "dissimilarity index " ++ t
print_header (rename_from t) = lit "rename from " ++ t
print_header (rename_to t) = lit "rename to " ++ t
print_header (copy_from t) = lit "copy from " ++ t
print_header (copy_to t) = lit "copy to " ++ t

-- What follows the header: nothing, as for a mode or a name that alone has changed; a line for a
-- binary file; or the two paths and the hunks, with /dev/null for a file that is not there.
pub data Change : Type 0 where
  no_text : Change
  binary : Text → Change
  modified created deleted : List Hunk → Change

pub record FileDiff : Type 0 where
  pub old_path : Text
  pub new_path : Text
  pub header : List HeaderLine
  pub change : Change

abbrev pub print_hunk : Hunk → List Text
print_hunk h = (lit "@@" ++ h.range) ∷ map print_line h.body

abbrev pub print_change : Text → Text → Change → List Text
print_change old new no_text = []
print_change old new (binary t) = (lit "Binary files " ++ t) ∷ []
print_change old new (modified hunks) =
    (lit "--- a/" ++ old) ∷ (lit "+++ b/" ++ new) ∷ flat print_hunk hunks
print_change old new (created hunks) =
    lit "--- /dev/null" ∷ (lit "+++ b/" ++ new) ∷ flat print_hunk hunks
print_change old new (deleted hunks) =
    (lit "--- a/" ++ old) ∷ lit "+++ /dev/null" ∷ flat print_hunk hunks

abbrev pub first_line : Text → Text → Text
first_line old new = lit "diff --git a/" ++ (old ++ (lit " b/" ++ new))

abbrev pub print_file : FileDiff → List Text
print_file d =
    first_line d.old_path d.new_path
    ∷ (map print_header d.header ++ print_change d.old_path d.new_path d.change)

abbrev pub hunks_of : Change → List Hunk
hunks_of no_text = []
hunks_of (binary t) = []
hunks_of (modified hunks) = hunks
hunks_of (created hunks) = hunks
hunks_of (deleted hunks) = hunks

-- A hunk as one text.
abbrev pub written_from : Text → List Text → Text
written_from buf [] = buf
written_from buf (l ∷ ls) = written_from (write_line buf l) ls

abbrev pub hunk_text : Hunk → Text
hunk_text h = written_from [] (print_hunk h)

abbrev pub all_body : FileDiff → List BodyLine
all_body d = flat (λ h. h.body) (hunks_of d.change)

-- What the parser is to find.
abbrev pub summary_of : FileDiff → ChangedFile
summary_of d = record {
  path = d.new_path;
  hunks = map hunk_text (hunks_of d.change);
  added_lines = length (keep is_plus (all_body d));
  removed_lines = length (keep is_minus (all_body d));
}

abbrev pub IsPlainFile : FileDiff → Type 0
IsPlainFile d = (contains 32 d.old_path ≡ false) × All IsPlain (all_body d)
