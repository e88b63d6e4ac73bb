-- ===== src/QueryPlan/Capabilities/Laws.antt =====
-- Every table has a level for every dimension, and a language is found however it is written.
use code_iq.Base.{◌≡◌, refl, true, ◌++◌, ap, arith}
use code_iq.Base.Text.{Text, to_upper}
use code_iq.Base.Text.Fold.{AllSpace, lower_key-pad}
use code_iq.Base.Assoc.{has}
use code_iq.QueryPlan.Plan.{CapabilityDimension, CapabilityMatrix, dimension_eq, symbol_definitions}
use code_iq.QueryPlan.Capabilities.{
  table_for, capability_matrix_for, java_caps, typescript_caps, javascript_caps, python_caps,
  go_caps, csharp_caps, rust_caps, cpp_caps, lexical_only_caps, unsupported_caps,
}

abbrev IsTotal : CapabilityMatrix → Type 0
IsTotal m = (d : CapabilityDimension) → has d m ≡ true

java_caps-IsTotal : IsTotal java_caps
unfolding has
java_caps-IsTotal symbol_definitions = refl
java_caps-IsTotal _ = refl

typescript_caps-IsTotal : IsTotal typescript_caps
unfolding has
typescript_caps-IsTotal symbol_definitions = refl
typescript_caps-IsTotal _ = refl

javascript_caps-IsTotal : IsTotal javascript_caps
unfolding has
javascript_caps-IsTotal symbol_definitions = refl
javascript_caps-IsTotal _ = refl

python_caps-IsTotal : IsTotal python_caps
unfolding has
python_caps-IsTotal symbol_definitions = refl
python_caps-IsTotal _ = refl

go_caps-IsTotal : IsTotal go_caps
unfolding has
go_caps-IsTotal symbol_definitions = refl
go_caps-IsTotal _ = refl

csharp_caps-IsTotal : IsTotal csharp_caps
unfolding has
csharp_caps-IsTotal symbol_definitions = refl
csharp_caps-IsTotal _ = refl

rust_caps-IsTotal : IsTotal rust_caps
unfolding has
rust_caps-IsTotal symbol_definitions = refl
rust_caps-IsTotal _ = refl

cpp_caps-IsTotal : IsTotal cpp_caps
unfolding has
cpp_caps-IsTotal symbol_definitions = refl
cpp_caps-IsTotal _ = refl

lexical_only_caps-IsTotal : IsTotal lexical_only_caps
unfolding has
lexical_only_caps-IsTotal symbol_definitions = refl
lexical_only_caps-IsTotal _ = refl

unsupported_caps-IsTotal : IsTotal unsupported_caps
unfolding has
unsupported_caps-IsTotal symbol_definitions = refl
unsupported_caps-IsTotal _ = refl

-- The matrix of any language, known or not, has a level for each of the nine dimensions.
pub capability_matrix_for-IsTotal :
    (language : Text) (d : CapabilityDimension) → has d (capability_matrix_for language) ≡ true
unfolding capability_matrix_for
capability_matrix_for-IsTotal language d = ground (
  arith,
  java_caps-IsTotal d,
  typescript_caps-IsTotal d,
  javascript_caps-IsTotal d,
  python_caps-IsTotal d,
  go_caps-IsTotal d,
  csharp_caps-IsTotal d,
  rust_caps-IsTotal d,
  cpp_caps-IsTotal d,
  lexical_only_caps-IsTotal d,
  unsupported_caps-IsTotal d,
)

-- Neither case nor surrounding white space of the language shows in its matrix.
pub capability_matrix_for-pad :
    (p s q : Text)
    → AllSpace p
    → AllSpace q
    → capability_matrix_for (p ++ (to_upper s ++ q)) ≡ capability_matrix_for s
unfolding capability_matrix_for
capability_matrix_for-pad p s q hp hq = ap table_for (lower_key-pad p s q hp hq)
