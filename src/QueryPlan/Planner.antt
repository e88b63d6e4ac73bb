-- ===== src/QueryPlan/Planner.antt =====
-- internal/intelligence/query/planner.go. The capability lookup is the planner's only field.
pub mod Laws
use code_iq.Base.{
  ℕ, Bool, true, false, ◌&&◌, ◌||◌, Option, none, some, List, [], ◌∷◌, ◌++◌, map, ◌≡◌, ◌==◌,
  contains, if◌then◌else◌, nat_beq, Eq, ◌↔◌, refl, arith,
}
use code_iq.Base.Text.{Text, text_eq, lit, to_lower, trim_space}
use code_iq.Base.Assoc.{lookup}
use code_iq.QueryPlan.Plan.{
  CapabilityDimension, CapabilityMatrix, CapabilityLevel, dimension_eq, dimension_name,
  symbol_definitions, symbol_references, import_resolution, framework_semantics, exact, partial,
  lexical_only, unsupported, QueryRoute, graph_first, lexical_first, merged, degraded, QueryType,
  find_symbol, find_references, find_callers, find_dependencies, search_text, find_config, Plan,
  is_graph_first, is_merged,
}

-- `queryDimensions`.
abbrev pub query_dimensions : List (QueryType × List CapabilityDimension)
query_dimensions =
    (find_symbol, symbol_definitions ∷ [])
    ∷ (find_references, symbol_references ∷ [])
    ∷ (find_callers, symbol_references ∷ [])
    ∷ (find_dependencies, import_resolution ∷ [])
    ∷ (search_text, [])
    ∷ (find_config, framework_semantics ∷ [])
    ∷ []

-- `lvl, present := caps[d]`, with `UNSUPPORTED` for a dimension that is missing.
abbrev pub level_of : CapabilityMatrix → CapabilityDimension → CapabilityLevel
level_of caps d = elim (lookup d caps) [ none ↦ unsupported | some l ↦ l ]

-- `_, ok := levels[l]`, for the set of the levels listed.
abbrev level_index : CapabilityLevel → ℕ
level_index exact = 0
level_index partial = 1
level_index lexical_only = 2
level_index unsupported = 3

abbrev pub has_level : CapabilityLevel → List CapabilityLevel → Bool
has_level l [] = false
has_level l (m ∷ ms) = nat_beq (level_index l) (level_index m) || has_level l ms

unfoldable pub select_route : List CapabilityLevel → QueryRoute
select_route levels =
    if has_level unsupported levels
    then degraded
    else if has_level lexical_only levels && has_level exact levels
    then merged
    else if has_level partial levels
    then merged
    else if has_level lexical_only levels
    then lexical_first
    else graph_first

-- `strings.ReplaceAll(s, "_", " ")`.
underscores_to_spaces : Text → Text
underscores_to_spaces = map (λ c. if nat_beq c b'_' then 32 else c)

-- `strings.Join(names, ", ")`.
join_names : List Text → Text
join_names [] = []
join_names (n ∷ []) = n
join_names (n ∷ m ∷ ns) = n ++ lit ", " ++ join_names (m ∷ ns)

dim_text : List CapabilityDimension → Text
unfolding underscores_to_spaces join_names dimension_name
dim_text dims = join_names (map (λ d. to_lower (underscores_to_spaces (dimension_name d))) dims)

abbrev is_blank : Text → Bool
is_blank s = trim_space s == []

lang_text : Text → Text
lang_text language =
    if is_blank language then lit "this language" else lit "'" ++ language ++ lit "'"

abbrev is_degraded : QueryRoute → Bool
is_degraded degraded = true
is_degraded _ = false

-- `buildDegradationNote`.
unfoldable pub build_degradation_note :
    QueryRoute → QueryType → Text → List CapabilityDimension → Text
unfolding dim_text lang_text
build_degradation_note route qt language dims =
    if is_graph_first route || is_merged route
    then []
    else if is_degraded route
    then lit "Query type "
      ++ qt
      ++ lit " is not supported for "
      ++ lang_text language
      ++ lit ". The current extractor suite has no structural analysis for "
      ++ dim_text dims
      ++ lit ". Consider running the analysis on a supported language (java, typescript, "
      ++ lit "javascript, python, go, csharp, rust) or use SEARCH_TEXT for lexical fallback."
    else lit "Query type "
      ++ qt
      ++ lit " for "
      ++ lang_text language
      ++ lit " uses lexical search only. Structural graph analysis is unavailable for "
      ++ dim_text dims
      ++ lit " in "
      ++ lang_text language
      ++ lit ". Results may be less precise than for fully-supported languages."

abbrev unmapped_note : QueryType → Text
unmapped_note qt =
    lit "No capability dimensions are mapped for query type "
    ++ qt
    ++ lit ". This query type may not be supported yet."

-- The plan for a query type with no dimension.
abbrev pub unmapped_plan : QueryType → Text → CapabilityMatrix → Plan
unmapped_plan qt language caps = record {
  query_type = qt;
  language = language;
  route = degraded;
  capabilities = caps;
  degradation_note = unmapped_note qt;
}

-- The plan for a query type with dimensions.
abbrev pub routed_plan : QueryType → Text → CapabilityMatrix → List CapabilityDimension → Plan
routed_plan qt language caps relevant =
    let route = select_route (map (level_of caps) relevant) in
    record {
      query_type = qt;
      language = language;
      route = route;
      capabilities = caps;
      degradation_note = build_degradation_note route qt language relevant;
    }

-- `Plan`.
unfoldable pub plan : (Text → CapabilityMatrix) → QueryType → Text → Plan
plan capability_for qt language =
    let caps = capability_for language in
    if qt == search_text
    then record {
      query_type = qt;
      language = language;
      route = lexical_first;
      capabilities = caps;
      degradation_note = [];
    }
    else elim (lookup qt query_dimensions) [
      | none ↦ unmapped_plan qt language caps
      | some [] ↦ unmapped_plan qt language caps
      | some (d ∷ ds) ↦ routed_plan qt language caps (d ∷ ds)
    ]
