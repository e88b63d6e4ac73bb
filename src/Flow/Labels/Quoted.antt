-- ===== src/Flow/Labels/Quoted.antt =====
-- A DOT reader gets back the label that was escaped.
use code_iq.Base.{
  ℕ, ◌≡◌, refl, ap, ◌∙◌, inl, inr, false, Option, none, some, [], ◌∷◌, ◌++◌, ◌==◌, nat_eq, flat,
  contains, arith, Bool-cases, if◌then◌else◌,
}
use code_iq.Base.Text.{Text}
use code_iq.Flow.Labels.{backslashed, escape_dot_label}
use code_iq.Flow.Labels.Escape.{replaced, escape_dot_label-one_pass}

abbrev and_then : ℕ → Option (Text × Text) → Option (Text × Text)
and_then c none = none
and_then c (some (s, rest)) = some (c ∷ s, rest)

-- A quoted string of DOT, after its opening quote: up to the first quote that no backslash
-- precedes, and what follows it.
unfoldable pub read_quoted : Text → Option (Text × Text)
read_quoted [] = none
read_quoted (c ∷ []) = if c == 34 then some ([], []) else none
read_quoted (c ∷ d ∷ s) =
    let escaped = read_quoted s in
    let plain = read_quoted (d ∷ s) in
    if c == 34 then some ([], d ∷ s) else if c == 92 then and_then d escaped else and_then c plain

read_quoted-plain :
    (c : ℕ) (tail s rest : Text)
    → (c == 34) ≡ false
    → (c == 92) ≡ false
    → read_quoted tail ≡ some (s, rest)
    → read_quoted (c ∷ tail) ≡ some (c ∷ s, rest)
unfolding read_quoted
read_quoted-plain c [] s rest h k e = cc
read_quoted-plain c (d ∷ tail) s rest h k e = rw (h, k, read_quoted, e) refl

one_pass-read :
    (s rest : Text)
    → read_quoted (flat (replaced backslashed (92 ∷ 34 ∷ [])) s ++ 34 ∷ rest) ≡ some (s, rest)
unfolding read_quoted
one_pass-read [] [] = refl
one_pass-read [] (c ∷ rest) = refl
one_pass-read (c ∷ s) rest = elim (Bool-cases (contains c (92 ∷ 34 ∷ []))) [
  | inl special ↦ rw special (ap (and_then c) (one_pass-read s rest))
  | inr plain ↦
      rw plain (read_quoted-plain c _ s rest (ground arith) (ground arith) (one_pass-read s rest))
]

-- An escaped label followed by a quote reads as the label: the quotes and backslashes of the label
-- neither end the string early nor are lost.
pub read_quoted-escape_dot_label :
    (s rest : Text) → read_quoted (escape_dot_label s ++ 34 ∷ rest) ≡ some (s, rest)
read_quoted-escape_dot_label s rest =
    ap (λ l. read_quoted (l ++ 34 ∷ rest)) (escape_dot_label-one_pass s) ∙ one_pass-read s rest
