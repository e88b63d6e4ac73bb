-- ===== src/Snippet/Window.antt =====
-- The bounds of a snippet.
use Prim.Native.Nat.{◌/◌}
use code_iq.Base.{
  ℕ, zero, suc, ◌+◌, ◌-◌, ◌<◌, ◌≤◌, ◌≡◌, refl, sym, ap, subst, inl, inr, not, ◌||◌, some, List, [],
  ◌∷◌, ◌++◌, get_elem?, take, ◌∙◌, leb, nat_beq, length, is_nonempty, arith, Bool-cases,
  Option-cases, if◌then◌else◌,
}
use code_iq.Base.Text.{Text}
use code_iq.Model.Node.{CodeNode}
use code_iq.Snippet.{
  ℤ, pos, negsuc, start_of, end_of, not_past, at_most, recentre, rounds, SourceFile,
  max_snippet_lines, window, copy_lines, Extracted, refused, panicked, extracted, escapes,
  cut_snippet, extract_with_context,
}

-- A window from line one or later to within the file, of at most the allowed lines.
abbrev pub IsBounded : ℕ → ℕ × ℤ → Type 0
IsBounded total (start, pos n) = (1 ≤ start) × (n ≤ total) × (n < start + max_snippet_lines)
IsBounded total (start, negsuc k) = 1 ≤ start

recentre-IsBounded :
    (centre total start : ℕ) (end : ℤ)
    → 1 ≤ start
    → IsBounded total (recentre centre total start (not_past total end))
recentre-IsBounded centre total start (pos n) h =
    elim (Bool-cases (leb (start + max_snippet_lines) (at_most n total))) [
      | inl long ↦ rw long (ground arith, ground arith, ground arith)
      | inr short ↦ rw short (h, ground arith, ground arith)
    ]
recentre-IsBounded centre total start (negsuc k) h = h

start_of_positive : (s : ℕ) (ctx : ℤ) → 1 ≤ s → 1 ≤ start_of s ctx
start_of_positive s (pos c) h = ground arith
start_of_positive s (negsuc k) h = omega arith

window-IsBounded : (s e : ℕ) (ctx : ℤ) (total : ℕ) → 1 ≤ s → IsBounded total (window s e ctx total)
unfolding window
window-IsBounded s e ctx total h =
    recentre-IsBounded ((s + e) / 2) total (start_of s ctx) (end_of e ctx)
      (start_of_positive s ctx h)

get_elem-some :
    {A : Type 0} (xs : List A) (i : ℕ) → i < length xs → (x : A) × (get_elem? xs i ≡ some x)
get_elem-some [] i h = absurd (omega (arith, h))
get_elem-some (x ∷ xs) zero h = (x, refl)
get_elem-some (x ∷ xs) (suc i) h = get_elem-some xs i (omega (arith, h))

-- The lines after so many.
abbrev pub lines_after : ℕ → List Text → List Text
lines_after zero ls = ls
lines_after (suc n) [] = []
lines_after (suc n) (l ∷ ls) = lines_after n ls

-- The lines of a file with these numbers, both included.
abbrev pub lines_between : ℕ → ℤ → List Text → List Text
lines_between start (pos n) ls = take (suc n - start) (lines_after (start - 1) ls)
lines_between start (negsuc k) ls = []

-- Each line with its newline.
abbrev pub with_newlines : List Text → Text
with_newlines [] = []
with_newlines (l ∷ ls) = l ++ (10 ∷ with_newlines ls)

lines_after-elem :
    (ls : List Text) (i : ℕ) (l : Text)
    → get_elem? ls i ≡ some l
    → lines_after i ls ≡ l ∷ lines_after (suc i) ls
lines_after-elem [] i l h = cc
lines_after-elem (x ∷ ls) zero l h = let same : x ≡ l = ground arith in ap (λ t. t ∷ ls) same
lines_after-elem (x ∷ ls) (suc i) l h = lines_after-elem ls i l h

length-take_le : (n : ℕ) (ls : List Text) → length (take n ls) ≤ n
length-take_le zero ls = omega arith
length-take_le (suc n) [] = omega arith
length-take_le (suc n) (l ∷ ls) = omega (arith, length-take_le n ls)

copy_lines-some :
    (n i : ℕ) (lines : List Text)
    → i + n ≤ length lines
    → copy_lines n i lines ≡ some (with_newlines (take n (lines_after i lines)))
unfolding copy_lines
copy_lines-some zero i lines h = refl
copy_lines-some (suc n) i lines h =
    let (line, here) = get_elem-some lines i (omega (arith, h)) in
    let later = copy_lines-some n (suc i) lines (omega (arith, h)) in
    let cut = lines_after-elem lines i line here in
    rw (copy_lines, here, later) (ap (λ l. some (with_newlines (take (suc n) l))) (sym cut))

copy_between :
    (a b : ℕ) (lines : List Text)
    → b ≤ length lines
    → copy_lines (b - a) a lines ≡ some (with_newlines (take (b - a) (lines_after a lines)))
unfolding copy_lines
copy_between a b lines h = elim (Bool-cases (leb a b)) [
  | inl forwards ↦ copy_lines-some (b - a) a lines (ground arith)
  | inr backwards ↦
      let nothing : b - a ≡ 0 = ground arith in
      ap (λ n. copy_lines n a lines) nothing
      ∙ sym (ap (λ n. some (with_newlines (take n (lines_after a lines)))) nothing)
]

-- The loop copies the lines of a window.
copy_window :
    (lines : List Text) (start : ℕ) (end : ℤ)
    → IsBounded (length lines) (start, end)
    → (copy_lines (rounds (start, end)) (start - 1) lines
        ≡ some (with_newlines (lines_between start end lines)))
      × (length (lines_between start end lines) ≤ max_snippet_lines)
unfolding copy_lines
copy_window lines start (pos n) (low, high, short) =
    let same : n - (start - 1) ≡ suc n - start = ground arith in
    (
      copy_between (start - 1) n lines high
          ∙ ap (λ k. some (with_newlines (take k (lines_after (start - 1) lines)))) same,
      ground (arith, length-take_le (suc n - start) (lines_after (start - 1) lines)),
    )
copy_window lines start (negsuc k) h = (refl, omega arith)

-- What an extraction may result in: not an index out of range, and a snippet whose text is the
-- lines of the file that its numbers name, at most as many as are allowed.
abbrev pub IsWithin : SourceFile → Extracted → Type 0
IsWithin file refused = Unit
IsWithin file panicked = ⊥
IsWithin file (extracted s) =
    (lines : List Text) × (file.content ≡ some lines)
    × IsBounded (length lines) (s.line_start, s.line_end)
    × (s.source ≡ with_newlines (lines_between s.line_start s.line_end lines))
    × (length (lines_between s.line_start s.line_end lines) ≤ max_snippet_lines)

cut_snippet-IsWithin :
    (node : CodeNode) (ctx : ℤ) (lines : List Text) (file : SourceFile)
    → file.content ≡ some lines
    → 1 ≤ node.line_start
    → IsWithin file (cut_snippet node ctx lines)
unfolding cut_snippet
cut_snippet-IsWithin node ctx lines file same h =
    let sym_end = if nat_beq node.line_end 0 then node.line_start else node.line_end in
    let w = window node.line_start sym_end ctx (length lines) in
    let bounded = window-IsBounded node.line_start sym_end ctx (length lines) h in
    let (copied, fits) = copy_window lines w.0 w.1 bounded in
    rw (cut_snippet, copied) (lines, same, bounded, refl, fits)

-- Wherever a node claims to stand, even past the end of its file, and whatever number of lines of
-- context, even a negative one, is asked for, no index is out of range, and the text of a snippet is
-- the lines from its first to its last line number, each with a newline: at most fifty, from line one
-- or later to within the file, and none where the last number is below the first.
pub extract-IsWithin :
    (node : CodeNode) (file : SourceFile) (ctx : ℤ)
    → IsWithin file (extract_with_context node file ctx)
unfolding extract_with_context
extract-IsWithin node file ctx =
    elim (Bool-cases (not (is_nonempty node.file_path) || nat_beq node.line_start 0)) [
      | inl bad ↦ rw (extract_with_context, bad) tt
      | inr good ↦ elim (Option-cases file.relative) [
        | inl none_there ↦ rw (extract_with_context, good, none_there) tt
        | inr (rel, there) ↦ elim (Bool-cases (escapes rel || not file.is_regular)) [
          | inl out ↦ rw (extract_with_context, good, there, out) tt
          | inr inside ↦ elim (Option-cases file.content) [
            | inl unread ↦ rw (extract_with_context, good, there, inside, unread) tt
            | inr (lines, read) ↦
                let now : extract_with_context node file ctx ≡ cut_snippet node ctx lines =
                  rw (extract_with_context, good, there, inside, read) refl in
                subst (IsWithin file) (sym now)
                  (cut_snippet-IsWithin node ctx lines file read (ground arith))
          ]
        ]
      ]
    ]
