-- ===== src/QueryPlan/Capabilities.antt =====
-- internal/intelligence/query/capabilities.go: the capability tables and their choice.
pub mod Laws
use code_iq.Base.{Bool, true, false, ◌||◌, List, [], ◌∷◌, ◌≡◌, ◌==◌, contains, map, if◌then◌else◌}
use code_iq.Base.Text.{Text, text_eq, lit}
use code_iq.Base.Text.Fold.{lower_key}
use code_iq.QueryPlan.Plan.{
  CapabilityMatrix, symbol_definitions, symbol_references, import_resolution, type_info,
  class_hierarchy, framework_semantics, orm_entity_mapping, auth_security, async_patterns, exact,
  partial, lexical_only, unsupported,
}

abbrev java_caps : CapabilityMatrix
java_caps =
    (symbol_definitions, exact)
    ∷ (symbol_references, exact)
    ∷ (import_resolution, exact)
    ∷ (type_info, exact)
    ∷ (class_hierarchy, exact)
    ∷ (framework_semantics, exact)
    ∷ (orm_entity_mapping, exact)
    ∷ (auth_security, exact)
    ∷ (async_patterns, partial)
    ∷ []

abbrev typescript_caps : CapabilityMatrix
typescript_caps =
    (symbol_definitions, partial)
    ∷ (symbol_references, partial)
    ∷ (import_resolution, partial)
    ∷ (type_info, partial)
    ∷ (class_hierarchy, partial)
    ∷ (framework_semantics, partial)
    ∷ (orm_entity_mapping, partial)
    ∷ (auth_security, partial)
    ∷ (async_patterns, partial)
    ∷ []

abbrev javascript_caps : CapabilityMatrix
javascript_caps =
    (symbol_definitions, partial)
    ∷ (symbol_references, partial)
    ∷ (import_resolution, partial)
    ∷ (type_info, lexical_only)
    ∷ (class_hierarchy, partial)
    ∷ (framework_semantics, partial)
    ∷ (orm_entity_mapping, partial)
    ∷ (auth_security, partial)
    ∷ (async_patterns, partial)
    ∷ []

abbrev python_caps : CapabilityMatrix
python_caps =
    (symbol_definitions, partial)
    ∷ (symbol_references, partial)
    ∷ (import_resolution, partial)
    ∷ (type_info, lexical_only)
    ∷ (class_hierarchy, partial)
    ∷ (framework_semantics, partial)
    ∷ (orm_entity_mapping, partial)
    ∷ (auth_security, partial)
    ∷ (async_patterns, partial)
    ∷ []

abbrev go_caps : CapabilityMatrix
go_caps =
    (symbol_definitions, partial)
    ∷ (symbol_references, partial)
    ∷ (import_resolution, partial)
    ∷ (type_info, partial)
    ∷ (class_hierarchy, lexical_only)
    ∷ (framework_semantics, partial)
    ∷ (orm_entity_mapping, partial)
    ∷ (auth_security, lexical_only)
    ∷ (async_patterns, partial)
    ∷ []

abbrev csharp_caps : CapabilityMatrix
csharp_caps =
    (symbol_definitions, partial)
    ∷ (symbol_references, partial)
    ∷ (import_resolution, partial)
    ∷ (type_info, partial)
    ∷ (class_hierarchy, partial)
    ∷ (framework_semantics, partial)
    ∷ (orm_entity_mapping, partial)
    ∷ (auth_security, partial)
    ∷ (async_patterns, partial)
    ∷ []

abbrev rust_caps : CapabilityMatrix
rust_caps =
    (symbol_definitions, partial)
    ∷ (symbol_references, partial)
    ∷ (import_resolution, partial)
    ∷ (type_info, partial)
    ∷ (class_hierarchy, lexical_only)
    ∷ (framework_semantics, partial)
    ∷ (orm_entity_mapping, unsupported)
    ∷ (auth_security, lexical_only)
    ∷ (async_patterns, partial)
    ∷ []

abbrev cpp_caps : CapabilityMatrix
cpp_caps =
    (symbol_definitions, partial)
    ∷ (symbol_references, partial)
    ∷ (import_resolution, partial)
    ∷ (type_info, partial)
    ∷ (class_hierarchy, partial)
    ∷ (framework_semantics, partial)
    ∷ (orm_entity_mapping, unsupported)
    ∷ (auth_security, lexical_only)
    ∷ (async_patterns, partial)
    ∷ []

abbrev lexical_only_caps : CapabilityMatrix
lexical_only_caps =
    (symbol_definitions, lexical_only)
    ∷ (symbol_references, lexical_only)
    ∷ (import_resolution, lexical_only)
    ∷ (type_info, unsupported)
    ∷ (class_hierarchy, lexical_only)
    ∷ (framework_semantics, lexical_only)
    ∷ (orm_entity_mapping, unsupported)
    ∷ (auth_security, lexical_only)
    ∷ (async_patterns, lexical_only)
    ∷ []

abbrev unsupported_caps : CapabilityMatrix
unsupported_caps =
    (symbol_definitions, unsupported)
    ∷ (symbol_references, unsupported)
    ∷ (import_resolution, unsupported)
    ∷ (type_info, unsupported)
    ∷ (class_hierarchy, unsupported)
    ∷ (framework_semantics, unsupported)
    ∷ (orm_entity_mapping, unsupported)
    ∷ (auth_security, unsupported)
    ∷ (async_patterns, unsupported)
    ∷ []

abbrev lexical_only_languages : List Text
lexical_only_languages =
    lit "kotlin"
    ∷ lit "scala"
    ∷ lit "ruby"
    ∷ lit "php"
    ∷ lit "shell"
    ∷ lit "bash"
    ∷ lit "powershell"
    ∷ lit "markdown"
    ∷ lit "proto"
    ∷ lit "hcl"
    ∷ lit "terraform"
    ∷ lit "dockerfile"
    ∷ lit "yaml"
    ∷ lit "json"
    ∷ lit "toml"
    ∷ lit "ini"
    ∷ lit "properties"
    ∷ lit "xml"
    ∷ lit "sql"
    ∷ []

-- `normaliseLanguage`: trimmed, in lower case.
abbrev pub normalise_language : Text → Text
normalise_language = lower_key

-- `tableFor`.
unfoldable pub table_for : Text → CapabilityMatrix
table_for lang =
    if lang == lit "java"
    then java_caps
    else if lang == lit "typescript"
    then typescript_caps
    else if lang == lit "javascript"
    then javascript_caps
    else if lang == lit "python"
    then python_caps
    else if lang == lit "go"
    then go_caps
    else if lang == lit "csharp" || lang == lit "c#"
    then csharp_caps
    else if lang == lit "cpp" || lang == lit "c++"
    then cpp_caps
    else if lang == lit "rust"
    then rust_caps
    else if contains lang lexical_only_languages
    then lexical_only_caps
    else unsupported_caps

-- `CapabilityMatrixFor`: a copy of the table.
unfoldable pub capability_matrix_for : Text → CapabilityMatrix
unfolding table_for
capability_matrix_for language = table_for (normalise_language language)

abbrev declared_languages : List Text
declared_languages =
    lit "java"
    ∷ lit "typescript"
    ∷ lit "javascript"
    ∷ lit "python"
    ∷ lit "go"
    ∷ lit "csharp"
    ∷ lit "rust"
    ∷ lit "cpp"
    ∷ lit "kotlin"
    ∷ lit "scala"
    ∷ lit "ruby"
    ∷ lit "php"
    ∷ lit "shell"
    ∷ []

-- `AllCapabilities`.
unfoldable pub all_capabilities : List (Text × CapabilityMatrix)
all_capabilities = map (λ lang. (lang, capability_matrix_for lang)) declared_languages
