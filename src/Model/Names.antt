-- ===== src/Model/Names.antt =====
-- The name tables of internal/model: an array of names indexed by the constants.
use code_iq.Base.{ℕ, ◌≡◌, Option, none, some, List, [], ◌∷◌, arith, get_elem?, if◌then◌else◌, ◌==◌}
use code_iq.Base.Text.{Text, text_eq, text_beq_iff}

-- `names[i]`; the index is always in range.
abbrev pub name_at : List Text → ℕ → Text
name_at names i = elim (get_elem? names i) [ none ↦ [] | some s ↦ s ]

-- `for i, name := range names { if name == s { return K(i) } }`: the names and the values that
-- their indices stand for, walked together.
unfoldable pub find_name : {K : Type 0} → Text → List Text → List K → Option K
find_name s [] ks = none
find_name s (n ∷ ns) [] = none
find_name s (n ∷ ns) (k ∷ ks) = if n == s then some k else find_name s ns ks

-- Each value's name is the one at its index.
abbrev pub Agrees : {K : Type 0} → (K → Text) → List Text → List K → Type 0
Agrees string [] ks = Unit
Agrees string (n ∷ ns) [] = Unit
Agrees string (n ∷ ns) (k ∷ ks) = (string k ≡ n) × Agrees string ns ks

pub find_name_sound :
    {K : Type 0} (string : K → Text) (s : Text) (ns : List Text) (ks : List K) (k : K)
    → Agrees string ns ks
    → find_name s ns ks ≡ some k
    → s ≡ string k
unfolding find_name
find_name_sound string s [] ks k h e = cc
find_name_sound string s (n ∷ ns) [] k h e = cc
find_name_sound string s (n ∷ ns) (j ∷ ks) k h e =
    ground (arith, text_beq_iff n s, find_name_sound string s ns ks k h.1)
