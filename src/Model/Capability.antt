-- ===== src/Model/Capability.antt =====
-- internal/model/capability.go: how thoroughly an extractor covers a language.
use code_iq.Base.{◌≡◌, refl, ◌++◌, Option, none, some, ◌==◌, if◌then◌else◌}
use code_iq.Base.Text.{Text, text_eq, text_beq, lit, to_lower, to_upper, trim_space}
use code_iq.Base.Text.Fold.{AllSpace, upper_key, upper_key-pad}

pub data CapabilityLevel : Type 0 where
  exact partial lexical_only unsupported : CapabilityLevel

unfoldable pub string : CapabilityLevel → Text
string exact = lit "EXACT"
string partial = lit "PARTIAL"
string lexical_only = lit "LEXICAL_ONLY"
string unsupported = lit "UNSUPPORTED"

-- The `switch` of `ParseCapabilityLevel`, on the trimmed text in upper case.
of_name : Text → Option CapabilityLevel
of_name s =
    if s == lit "EXACT"
    then some exact
    else if s == lit "PARTIAL"
    then some partial
    else if s == lit "LEXICAL_ONLY"
    then some lexical_only
    else if s == lit "UNSUPPORTED"
    then some unsupported
    else none

unfoldable pub parse : Text → Option CapabilityLevel
unfolding of_name
parse s = of_name (upper_key s)

parse-string : (c : CapabilityLevel) → parse (string c) ≡ some c
unfolding parse string text_beq upper_key to_upper trim_space
parse-string exact = refl
parse-string _ = refl

-- A level's name parses to the level however it is cased and padded with white space.
pub parse_level-pad :
    (c : CapabilityLevel) (p q : Text)
    → AllSpace p
    → AllSpace q
    → parse (p ++ (to_lower (string c) ++ q)) ≡ some c
unfolding parse
parse_level-pad c p q hp hq = rw (upper_key-pad p (string c) q hp hq) (parse-string c)
