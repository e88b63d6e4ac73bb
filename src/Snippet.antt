-- ===== src/Snippet.antt =====
-- internal/intelligence/lexical/snippet_store.go: the lines around a node. The file system is an
-- argument. The line numbers of a node that are not positive are 0; the number of lines of context is
-- any integer.
pub mod Window
use Prim.Native.Nat.{◌/◌}
use code_iq.Base.{
  ℕ, zero, suc, ◌+◌, ◌-◌, Bool, true, false, not, ◌||◌, Option, none, some, List, [], ◌∷◌, ◌++◌,
  ◌==◌, nat_eq, get_elem?, ltb, leb, nat_beq, length, contains, is_nonempty, if◌then◌else◌,
}
use code_iq.Base.Text.{Text, text_eq, lit, to_lower, has_prefix}
use code_iq.Base.Text.Search.{after_last}
use code_iq.Model.Node.{CodeNode}

-- The integers that Go's int stands for here: no sum comes near its bounds.
pub data ℤ : Type 0 where
  pos negsuc : ℕ → ℤ

pub record CodeSnippet : Type 0 where
  pub source : Text
  pub file_path : Text
  pub line_start : ℕ
  pub line_end : ℤ
  pub language : Text

-- What the platform answers about a node's path under the root: the relative path, if any, whether
-- a regular file is there, and its content cut at the newlines, if it can be read.
pub record SourceFile : Type 0 where
  pub relative : Option Text
  pub is_regular : Bool
  pub content : Option (List Text)

abbrev pub max_snippet_lines : ℕ
max_snippet_lines = 50

abbrev pub default_context_lines : ℤ
default_context_lines = pos 3

abbrev lang : Text → List Text → Text × List Text
lang name exts = (name, exts)

abbrev pub snippet_languages : List (Text × List Text)
snippet_languages =
    lang (lit "java") (lit "java" ∷ [])
    ∷ lang (lit "typescript") (lit "ts" ∷ lit "tsx" ∷ [])
    ∷ lang (lit "javascript") (lit "js" ∷ lit "jsx" ∷ [])
    ∷ lang (lit "python") (lit "py" ∷ [])
    ∷ lang (lit "go") (lit "go" ∷ [])
    ∷ lang (lit "rust") (lit "rs" ∷ [])
    ∷ lang (lit "csharp") (lit "cs" ∷ [])
    ∷ lang (lit "cpp") (lit "cpp" ∷ lit "cc" ∷ lit "cxx" ∷ lit "h" ∷ lit "hpp" ∷ [])
    ∷ lang (lit "kotlin") (lit "kt" ∷ [])
    ∷ lang (lit "scala") (lit "scala" ∷ lit "sc" ∷ [])
    ∷ []

unfoldable pub language_in : List (Text × List Text) → Text → Text
language_in [] ext = lit "unknown"
language_in ((name, exts) ∷ rest) ext = if contains ext exts then name else language_in rest ext

unfoldable pub infer_language : Text → Text
unfolding language_in
infer_language path =
    if contains 46 path
    then language_in snippet_languages (to_lower (after_last 46 path))
    else lit "unknown"

-- `a - b`, or 1 where that is less than 1.
abbrev pub back_to_one : ℕ → ℕ → ℕ
back_to_one a b = if ltb b a then a - b else 1

abbrev pub at_most : ℕ → ℕ → ℕ
at_most a b = if ltb b a then b else a

-- `symStart - ctx`, not below 1.
abbrev pub start_of : ℕ → ℤ → ℕ
start_of sym_start (pos c) = back_to_one sym_start c
start_of sym_start (negsuc k) = sym_start + suc k

-- `symEnd + ctx`
abbrev pub end_of : ℕ → ℤ → ℤ
end_of sym_end (pos c) = pos (sym_end + c)
end_of sym_end (negsuc k) = if ltb k sym_end then pos (sym_end - suc k) else negsuc (k - sym_end)

-- `if end > total { end = total }`
abbrev pub not_past : ℕ → ℤ → ℤ
not_past total (pos n) = pos (at_most n total)
not_past total (negsuc k) = negsuc k

-- Where the lines are too many, as many as are allowed around the middle of the symbol.
abbrev pub recentre : ℕ → ℕ → ℕ → ℤ → ℕ × ℤ
recentre centre total start (pos n) =
    if leb (start + max_snippet_lines) n
    then (back_to_one centre 25, pos (at_most (back_to_one centre 25 + 49) total))
    else (start, pos n)
recentre centre total start (negsuc k) = (start, negsuc k)

-- The first and the last line of the snippet.
unfoldable pub window : ℕ → ℕ → ℤ → ℕ → ℕ × ℤ
window sym_start sym_end ctx total =
    recentre ((sym_start + sym_end) / 2) total (start_of sym_start ctx)
      (not_past total (end_of sym_end ctx))

-- The rounds of `for i := start - 1; i < end; i++`.
abbrev pub rounds : ℕ × ℤ → ℕ
rounds (start, pos n) = n - (start - 1)
rounds (start, negsuc k) = 0

-- The loop over the lines, with so many rounds left; `none` is an index out of range.
unfoldable pub copy_lines : ℕ → ℕ → List Text → Option Text
copy_lines zero i lines = some []
copy_lines (suc n) i lines =
    let rest = copy_lines n (suc i) lines in
    elim (get_elem? lines i) [
      | none ↦ none
      | some line ↦ elim rest [ none ↦ none | some t ↦ some (line ++ (10 ∷ t)) ]
    ]

pub data Extracted : Type 0 where
  refused : Extracted
  panicked : Extracted
  extracted : CodeSnippet → Extracted

-- A relative path that leads out of the root.
unfoldable pub escapes : Text → Bool
escapes rel = rel == lit ".." || has_prefix rel (lit "../")

unfoldable pub cut_snippet : CodeNode → ℤ → List Text → Extracted
unfolding window copy_lines infer_language
cut_snippet node ctx lines =
    let sym_end = if nat_beq node.line_end 0 then node.line_start else node.line_end in
    let w = window node.line_start sym_end ctx (length lines) in
    elim (copy_lines (rounds w) (w.0 - 1) lines) [
      | none ↦ panicked
      | some source ↦ extracted (record {
        source = source;
        file_path = node.file_path;
        line_start = w.0;
        line_end = w.1;
        language = infer_language node.file_path;
      })
    ]

unfoldable pub extract_with_context : CodeNode → SourceFile → ℤ → Extracted
unfolding cut_snippet escapes
extract_with_context node file ctx =
    if not (is_nonempty node.file_path) || nat_beq node.line_start 0
    then refused
    else elim file.relative [
      | none ↦ refused
      | some rel ↦
          if escapes rel || not file.is_regular
          then refused
          else elim file.content [ none ↦ refused | some lines ↦ cut_snippet node ctx lines ]
    ]

abbrev pub extract : CodeNode → SourceFile → Extracted
extract node file = extract_with_context node file default_context_lines
