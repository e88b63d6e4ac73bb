-- ===== src/Base/Text/Search.antt =====
-- `strings.HasSuffix`, `strings.Contains`, and cutting a text at a suffix or a byte.
use Prim.Native.Nat.{ℕ, zero, suc}
use mathlib.Core.Bool.{Bool, true, false, ◌||◌}
use mathlib.Core.Option.{Option, none, some}
use mathlib.Core.List.{[], ◌∷◌, ◌++◌}
use code_iq.Base.Tests.{◌==◌, nat_eq, if◌then◌else◌}
use code_iq.Base.Lists.{contains, length}
use code_iq.Base.Text.{Text, text_beq, has_prefix, trim_space}

-- What stands before the suffix, where the text has it.
unfoldable pub cut_suffix : Text → Text → Option Text
cut_suffix suffix [] = if text_beq [] suffix then some [] else none
cut_suffix suffix (c ∷ s) =
    let rest = cut_suffix suffix s in
    if text_beq (c ∷ s) suffix
    then some []
    else elim rest [ none ↦ none | some front ↦ some (c ∷ front) ]

unfoldable pub has_suffix : Text → Text → Bool
unfolding cut_suffix
has_suffix suffix s = elim (cut_suffix suffix s) [ none ↦ false | some front ↦ true ]

unfoldable pub contains_text : Text → Text → Bool
contains_text needle [] = text_beq [] needle
contains_text needle (c ∷ s) = has_prefix (c ∷ s) needle || contains_text needle s

-- What follows the last occurrence of a byte, or all of a text without it.
unfoldable pub after_last : ℕ → Text → Text
after_last d [] = []
after_last d (c ∷ s) =
    let rest = after_last d s in if contains d s then rest else if c == d then s else c ∷ s

-- What stands before and after the first occurrence of a byte.
unfoldable pub cut_byte : ℕ → Text → Option (Text × Text)
cut_byte d [] = none
cut_byte d (c ∷ s) =
    let rest = cut_byte d s in
    if c == d
    then some ([], s)
    else elim rest [ none ↦ none | some (front, back) ↦ some (c ∷ front, back) ]

-- The rest of a text after so many bytes.
abbrev pub drop : ℕ → Text → Text
drop zero s = s
drop (suc n) [] = []
drop (suc n) (c ∷ s) = drop n s

-- What follows the first occurrence of a text.
unfoldable pub after_text : Text → Text → Option Text
after_text needle [] = if text_beq [] needle then some [] else none
after_text needle (c ∷ s) =
    let rest = after_text needle s in
    if has_prefix (c ∷ s) needle then some (drop (length needle) (c ∷ s)) else rest

-- What stands before the first occurrence of a text, or all of a text without it.
unfoldable pub before_text : Text → Text → Text
before_text needle [] = []
before_text needle (c ∷ s) =
    let rest = before_text needle s in if has_prefix (c ∷ s) needle then [] else c ∷ rest

-- `strings.ReplaceAll` for one byte.
unfoldable pub replace_byte : ℕ → Text → Text → Text
replace_byte d by [] = []
replace_byte d by (c ∷ s) = if c == d then by ++ replace_byte d by s else c ∷ replace_byte d by s

-- `strings.TrimSpace(s) == ""`
unfoldable pub is_blank : Text → Bool
unfolding trim_space
is_blank s = elim (trim_space s) [ [] ↦ true | c ∷ t ↦ false ]
