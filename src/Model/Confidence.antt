-- ===== src/Model/Confidence.antt =====
-- internal/model/confidence.go: the ladder pattern → structure → resolved.
use code_iq.Base.{
  ℕ, ◌<◌, ◌≡◌, refl, ◌↔◌, ◌++◌, Bool, Option, none, some, arith, ◌==◌, ltb, if◌then◌else◌,
}
use code_iq.Base.Text.{Text, text_eq, text_beq, lit, to_lower, to_upper, trim_space}
use code_iq.Base.Text.Fold.{AllSpace, upper_key, upper_key-pad}

pub data Confidence : Type 0 where
  lexical syntactic resolved : Confidence

-- The integer that Go gives the constant.
abbrev pub ordinal : Confidence → ℕ
ordinal lexical = 0
ordinal syntactic = 1
ordinal resolved = 2

-- `a > b`.
abbrev pub above : Confidence → Confidence → Bool
above a b = ltb (ordinal b) (ordinal a)

-- `Score`, in hundredths.
unfoldable pub score : Confidence → ℕ
score lexical = 60
score syntactic = 80
score resolved = 95

unfoldable pub string : Confidence → Text
string lexical = lit "LEXICAL"
string syntactic = lit "SYNTACTIC"
string resolved = lit "RESOLVED"

-- The `switch` of `ParseConfidence`, on the trimmed text in upper case.
of_name : Text → Option Confidence
of_name s =
    if s == lit "LEXICAL"
    then some lexical
    else if s == lit "SYNTACTIC"
    then some syntactic
    else if s == lit "RESOLVED"
    then some resolved
    else none

unfoldable pub parse : Text → Option Confidence
unfolding of_name
parse s = of_name (upper_key s)

-- The order of the constants is the order of the scores.
pub score_lt_iff : (a b : Confidence) → (score a < score b) ↔ (ordinal a < ordinal b)
unfolding score
score_lt_iff lexical lexical = ground arith
score_lt_iff _ _ = ground arith

parse-string : (c : Confidence) → parse (string c) ≡ some c
unfolding parse string text_beq upper_key to_upper trim_space
parse-string lexical = refl
parse-string _ = refl

-- Parsing ignores case and surrounding white space: a name parses to its value however it is
-- cased and padded.
pub parse-pad : (p s q : Text) → AllSpace p → AllSpace q → parse (p ++ (to_lower s ++ q)) ≡ parse s
unfolding parse
parse-pad p s q hp hq = rw (upper_key-pad p s q hp hq)

-- A name of the ladder parses to its value however it is cased and padded with white space.
pub parse_confidence-pad :
    (c : Confidence) (p q : Text)
    → AllSpace p
    → AllSpace q
    → parse (p ++ (to_lower (string c) ++ q)) ≡ some c
parse_confidence-pad c p q hp hq = rw (parse-pad p (string c) q hp hq) (parse-string c)
