-- ===== src/QueryPlan/Plan.antt =====
-- internal/intelligence/query/plan.go and route.go: dimensions, levels, routes and plans.
use code_iq.Base.{
  ℕ, Bool, true, false, ◌||◌, List, [], ◌∷◌, ◌≡◌, ◌↔◌, refl, ap, Eq, some, nat_beq, nat_beq_iff,
  get_elem?,
}
use code_iq.Base.Text.{Text, lit}

pub data CapabilityDimension : Type 0 where
  symbol_definitions symbol_references import_resolution type_info class_hierarchy
        framework_semantics orm_entity_mapping auth_security async_patterns :
      CapabilityDimension

-- `string(d)`.
unfoldable pub dimension_name : CapabilityDimension → Text
dimension_name symbol_definitions = lit "SYMBOL_DEFINITIONS"
dimension_name symbol_references = lit "SYMBOL_REFERENCES"
dimension_name import_resolution = lit "IMPORT_RESOLUTION"
dimension_name type_info = lit "TYPE_INFO"
dimension_name class_hierarchy = lit "CLASS_HIERARCHY"
dimension_name framework_semantics = lit "FRAMEWORK_SEMANTICS"
dimension_name orm_entity_mapping = lit "ORM_ENTITY_MAPPING"
dimension_name auth_security = lit "AUTH_SECURITY"
dimension_name async_patterns = lit "ASYNC_PATTERNS"

-- `AllDimensions`, in the order of declaration.
abbrev pub all_dimensions : List CapabilityDimension
all_dimensions =
    symbol_definitions ∷ symbol_references ∷ import_resolution ∷ type_info ∷ class_hierarchy
    ∷ framework_semantics ∷ orm_entity_mapping ∷ auth_security ∷ async_patterns ∷ []

abbrev dimension_index : CapabilityDimension → ℕ
dimension_index symbol_definitions = 0
dimension_index symbol_references = 1
dimension_index import_resolution = 2
dimension_index type_info = 3
dimension_index class_hierarchy = 4
dimension_index framework_semantics = 5
dimension_index orm_entity_mapping = 6
dimension_index auth_security = 7
dimension_index async_patterns = 8

at_index : (d : CapabilityDimension) → get_elem? all_dimensions (dimension_index d) ≡ some d
at_index symbol_definitions = refl
at_index _ = refl

-- `==` on dimensions.
abbrev pub dimension_beq : CapabilityDimension → CapabilityDimension → Bool
dimension_beq a b = nat_beq (dimension_index a) (dimension_index b)

pub dimension_beq_iff : (a b : CapabilityDimension) → (dimension_beq a b ≡ true) ↔ (a ≡ b)
dimension_beq_iff a b = (
  λ h. cc (at_index a, at_index b, ap (get_elem? all_dimensions) ((nat_beq_iff _ _).0 h)),
  λ e. (nat_beq_iff _ _).1 (ap dimension_index e),
)

instance abbrev pub dimension_eq : Eq CapabilityDimension
dimension_eq = record { beq = dimension_beq; beq_iff = dimension_beq_iff }

pub data CapabilityLevel : Type 0 where
  exact partial lexical_only unsupported : CapabilityLevel

-- A map; one that a caller supplies may lack dimensions.
abbrev pub CapabilityMatrix : Type 0
CapabilityMatrix = List (CapabilityDimension × CapabilityLevel)

pub data QueryRoute : Type 0 where
  graph_first lexical_first merged degraded : QueryRoute

-- `string(q)`.
unfoldable pub route_name : QueryRoute → Text
route_name graph_first = lit "GRAPH_FIRST"
route_name lexical_first = lit "LEXICAL_FIRST"
route_name merged = lit "MERGED"
route_name degraded = lit "DEGRADED"

-- A query type is a string, so a caller may pass one that is none of the constants.
abbrev pub QueryType : Type 0
QueryType = Text

abbrev pub find_symbol : QueryType
find_symbol = lit "FIND_SYMBOL"

abbrev pub find_references : QueryType
find_references = lit "FIND_REFERENCES"

abbrev pub find_callers : QueryType
find_callers = lit "FIND_CALLERS"

abbrev pub find_dependencies : QueryType
find_dependencies = lit "FIND_DEPENDENCIES"

abbrev pub search_text : QueryType
search_text = lit "SEARCH_TEXT"

abbrev pub find_config : QueryType
find_config = lit "FIND_CONFIG"

pub record Plan : Type 0 where
  pub query_type : QueryType
  pub language : Text
  pub route : QueryRoute
  pub capabilities : CapabilityMatrix
  pub degradation_note : Text

abbrev pub is_graph_first : QueryRoute → Bool
is_graph_first graph_first = true
is_graph_first _ = false

abbrev pub is_lexical_first : QueryRoute → Bool
is_lexical_first lexical_first = true
is_lexical_first _ = false

abbrev pub is_merged : QueryRoute → Bool
is_merged merged = true
is_merged _ = false

-- `UsesGraph`.
abbrev pub uses_graph : Plan → Bool
uses_graph p = is_graph_first p.route || is_merged p.route

-- `UsesLexical`.
abbrev pub uses_lexical : Plan → Bool
uses_lexical p = is_lexical_first p.route || is_merged p.route
