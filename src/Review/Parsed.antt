-- ===== src/Review/Parsed.antt =====
-- Reading a printed diff gives back what was printed.
use mathlib.Core.List.{foldl, append-nil, append_assoc}
use code_iq.Base.{
  ℕ, suc, ◌+◌, ◌≡◌, refl, sym, ap, ap₂, ◌∙◌, Bool, true, false, some, List, [], ◌∷◌, ◌++◌, map,
  flat, keep, keep-append, length, length-append, is_nonempty, All, All-split, arith,
}
use code_iq.Base.Text.{Text, lit, has_prefix}
use code_iq.Review.{
  ChangedFile, Scan, flush_hunk, write_line, added, removed, other, line_kind, scan_as, scan_line,
}
use code_iq.Review.Printed.{
  BodyLine, plus, minus, context, blank, no_newline, print_line, is_plus, is_minus, IsPlain, Hunk,
  print_hunk, written_from, hunk_text,
}

pub foldl-append :
    {A B : Type 0} (f : B → A → B) (b : B) (xs ys : List A)
    → foldl f b (xs ++ ys) ≡ foldl f (foldl f b xs) ys
foldl-append f b [] ys = refl
foldl-append f b (x ∷ xs) ys = foldl-append f (f b x) xs ys

-- A longer prefix needs the shorter one.
prefix-longer :
    (s : Text) (a b : ℕ) (p : Text)
    → has_prefix s (a ∷ b ∷ []) ≡ false
    → has_prefix s (a ∷ b ∷ p) ≡ false
unfolding has_prefix
prefix-longer [] a b p h = refl
prefix-longer (c ∷ []) a b p h = ground arith
prefix-longer (c ∷ d ∷ s) a b p h = ground arith

line_kind-plus : (t : Text) → has_prefix t (lit "++") ≡ false → line_kind (b'+' ∷ t) ≡ added
unfolding line_kind has_prefix
line_kind-plus t h = rw (prefix-longer t b'+' b'+' (lit " b/") h, h) refl

line_kind-minus : (t : Text) → has_prefix t (lit "--") ≡ false → line_kind (b'-' ∷ t) ≡ removed
unfolding line_kind has_prefix
line_kind-minus t h = rw h refl

line_kind-context : (t : Text) → line_kind (b' ' ∷ t) ≡ other
unfolding line_kind has_prefix
line_kind-context t = refl

-- The state inside a file.
abbrev pub inside : List ChangedFile → Text → List Text → ℕ → ℕ → Text → Scan
inside files path hunks a r buf = record {
  files = files;
  cur = some (record { path = path; hunks = hunks; added_lines = a; removed_lines = r });
  hunk_buf = buf;
}

length-keep-append :
    {A : Type 0} (p : A → Bool) (xs ys : List A)
    → length (keep p (xs ++ ys)) ≡ length (keep p xs) + length (keep p ys)
length-keep-append p xs ys = ap length (keep-append p xs ys) ∙ length-append (keep p xs) (keep p ys)

write_line-nonempty :
    (buf line : Text) → is_nonempty buf ≡ true → is_nonempty (write_line buf line) ≡ true
write_line-nonempty [] line h = cc
write_line-nonempty (c ∷ buf) line h = refl

written_from-nonempty :
    (buf : Text) (ls : List Text)
    → is_nonempty buf ≡ true
    → is_nonempty (written_from buf ls) ≡ true
written_from-nonempty buf [] h = h
written_from-nonempty buf (l ∷ ls) h =
    written_from-nonempty (write_line buf l) ls (write_line-nonempty buf l h)

module _ (files : List ChangedFile) (path : Text) where
  abbrev plus_in : List BodyLine → ℕ
  plus_in ls = length (keep is_plus ls)

  abbrev minus_in : List BodyLine → ℕ
  minus_in ls = length (keep is_minus ls)

  -- A line of a hunk that counts as neither added nor removed.
  scan-passed :
      (hunks : List Text) (a r : ℕ) (buf line : Text) (ls : List BodyLine) (end : Scan)
      → is_nonempty buf ≡ true
      → line_kind line ≡ other
      → foldl scan_line (inside files path hunks a r (write_line buf line)) (map print_line ls)
        ≡ end
      → foldl scan_line (inside files path hunks a r buf) (line ∷ map print_line ls) ≡ end
  unfolding scan_line scan_as
  scan-passed hunks a r buf line ls end h passed later =
      let step : scan_as other line (inside files path hunks a r buf)
          ≡ inside files path hunks a r (write_line buf line) =
        rw h refl in
      ap
        (λ k.
          foldl scan_line (scan_as k line (inside files path hunks a r buf)) (map print_line ls))
        passed
      ∙ (ap (λ s. foldl scan_line s (map print_line ls)) step ∙ later)

  scan-body :
      (hunks : List Text) (ls : List BodyLine) (a r : ℕ) (buf : Text)
      → is_nonempty buf ≡ true
      → All IsPlain ls
      → foldl scan_line (inside files path hunks a r buf) (map print_line ls)
        ≡ inside files path hunks
            (a + plus_in ls)
            (r + minus_in ls)
            (written_from buf (map print_line ls))
  unfolding scan_line scan_as line_kind has_prefix
  scan-body hunks [] a r buf h plain =
      let same_a : a ≡ a + 0 = omega arith in
      let same_r : r ≡ r + 0 = omega arith in
      ap₂ (λ x y. inside files path hunks x y buf) same_a same_r
  scan-body hunks (plus t ∷ ls) a r buf h plain =
      let line = b'+' ∷ t in
      let step : scan_line (inside files path hunks a r buf) line
          ≡ inside files path hunks (suc a) (r) (write_line buf line) =
        ap (λ k. scan_as k line (inside files path hunks a r buf)) (line_kind-plus t plain.0) in
      let same_a : suc a + plus_in ls ≡ a + suc (plus_in ls) = omega arith in
      ap (λ s. foldl scan_line s (map print_line ls)) step
      ∙ (scan-body hunks ls (suc a) (r) (write_line buf line) (write_line-nonempty buf line h)
            plain.1
          ∙ ap
              (λ n.
                inside files path hunks n (r + minus_in ls)
                  (written_from (write_line buf line) (map print_line ls)))
              same_a)
  scan-body hunks (minus t ∷ ls) a r buf h plain =
      let line = b'-' ∷ t in
      let step : scan_line (inside files path hunks a r buf) line
          ≡ inside files path hunks (a) (suc r) (write_line buf line) =
        ap (λ k. scan_as k line (inside files path hunks a r buf)) (line_kind-minus t plain.0) in
      let same_r : suc r + minus_in ls ≡ r + suc (minus_in ls) = omega arith in
      ap (λ s. foldl scan_line s (map print_line ls)) step
      ∙ (scan-body hunks ls (a) (suc r) (write_line buf line) (write_line-nonempty buf line h)
            plain.1
          ∙ ap
              (λ n.
                inside files path hunks (a + plus_in ls) n
                  (written_from (write_line buf line) (map print_line ls)))
              same_r)
  scan-body hunks (context t ∷ ls) a r buf h plain =
      scan-passed hunks a r buf (b' ' ∷ t) ls _ h (line_kind-context t) (
        scan-body hunks ls a r (write_line buf (b' ' ∷ t)) (write_line-nonempty buf (b' ' ∷ t) h)
          plain.1)
  scan-body hunks (blank ∷ ls) a r buf h plain =
      scan-passed hunks a r buf [] ls _ h refl
        (scan-body hunks ls a r (write_line buf []) (write_line-nonempty buf [] h) plain.1)
  scan-body hunks (no_newline ∷ ls) a r buf h plain =
      scan-passed hunks a r buf (print_line no_newline) ls _ h refl (
        scan-body hunks ls a r (write_line buf (print_line no_newline))
          (write_line-nonempty buf (print_line no_newline) h) plain.1)

  -- The hunks with the one that is being written.
  abbrev flushed : List Text → Text → List Text
  flushed hunks [] = hunks
  flushed hunks (c ∷ buf) = hunks ++ (c ∷ buf) ∷ []

  flush-inside :
      (hunks : List Text) (a r : ℕ) (buf : Text)
      → flush_hunk (inside files path hunks a r buf) ≡ inside files path (flushed hunks buf) a r []
  flush-inside hunks a r [] = refl
  flush-inside hunks a r (c ∷ buf) = refl

  flushed-nonempty :
      (hunks : List Text) (buf : Text)
      → is_nonempty buf ≡ true
      → flushed hunks buf ≡ hunks ++ buf ∷ []
  flushed-nonempty hunks [] h = cc
  flushed-nonempty hunks (c ∷ buf) h = refl

  scan-header :
      (hunks : List Text) (a r : ℕ) (buf range : Text)
      → scan_line (inside files path hunks a r buf) (lit "@@" ++ range)
        ≡ inside files path (flushed hunks buf) a r (write_line [] (lit "@@" ++ range))
  unfolding scan_line scan_as line_kind has_prefix
  scan-header hunks a r [] range = refl
  scan-header hunks a r (c ∷ buf) range = refl

  pub inside-eq :
      {hunks gs : List Text} {a b r q : ℕ}
      → hunks ≡ gs
      → a ≡ b
      → r ≡ q
      → inside files path hunks a r [] ≡ inside files path gs b q []
  inside-eq d e f = λ i. inside files path (d i) (e i) (f i) []

  pub scan-hunks :
      (hs : List Hunk) (hunks : List Text) (a r : ℕ) (buf : Text)
      → All IsPlain (flat (λ h. h.body) hs)
      → flush_hunk (foldl scan_line (inside files path hunks a r buf) (flat print_hunk hs))
        ≡ inside files path
            (flushed hunks buf ++ map hunk_text hs)
            (a + plus_in (flat (λ h. h.body) hs))
            (r + minus_in (flat (λ h. h.body) hs))
            []
  scan-hunks [] hunks a r buf plain =
      let same_a : a ≡ a + 0 = omega arith in
      let same_r : r ≡ r + 0 = omega arith in
      flush-inside hunks a r buf ∙ inside-eq (sym (append-nil (flushed hunks buf))) same_a same_r
  scan-hunks (h ∷ hs) hunks a r buf plain =
      let rest = flat (λ x. x.body) hs in
      let header = lit "@@" ++ h.range in
      let tail = flat print_hunk hs in
      let (plain_body, plain_rest) = All-split IsPlain h.body rest plain in
      let now = flushed hunks buf in
      let body_lines = map print_line h.body in
      ap (λ s. flush_hunk (foldl scan_line s (body_lines ++ tail)))
        (scan-header hunks a r buf h.range)
      ∙ (ap flush_hunk (
            foldl-append scan_line (inside files path now a r (write_line [] header)) body_lines
              tail)
          ∙ (ap (λ s. flush_hunk (foldl scan_line s tail))
                (scan-body now h.body a r (write_line [] header) refl plain_body)
              ∙ (scan-hunks hs now (a + plus_in h.body) (r + minus_in h.body) (hunk_text h)
                    plain_rest
                  ∙ inside-eq
                      (ap (λ l. l ++ map hunk_text hs)
                          (flushed-nonempty now (hunk_text h)
                            (written_from-nonempty (write_line [] header) body_lines refl))
                        ∙ append_assoc now (hunk_text h ∷ []) (map hunk_text hs))
                      (omega (arith, length-keep-append is_plus h.body rest))
                      (omega (arith, length-keep-append is_minus h.body rest)))))
