-- ===== src/QueryPlan/Planner/Laws.antt =====
-- Which route is chosen, and when a plan carries a degradation note.
use code_iq.Base.{
  ◌≡◌, refl, ◌↔◌, ◌⊎◌, inl, inr, ◌∙◌, sym, ap, true, false, Option, none, some, List, [], ◌∷◌, ◌++◌,
  map, ◌==◌, All, Bool-cases, arith, if◌then◌else◌,
}
use code_iq.Base.Text.{Text, text_eq, text_beq_iff, to_upper}
use code_iq.Base.Text.Fold.{AllSpace}
use code_iq.Base.Assoc.{lookup}
use code_iq.QueryPlan.Plan.{
  CapabilityLevel, CapabilityMatrix, QueryRoute, graph_first, lexical_first, merged, degraded,
  QueryType, search_text, Plan, uses_graph, CapabilityDimension,
}
use code_iq.QueryPlan.Capabilities.{capability_matrix_for}
use code_iq.QueryPlan.Capabilities.Laws.{capability_matrix_for-pad}
use code_iq.QueryPlan.Planner.{
  select_route, query_dimensions, level_of, plan, build_degradation_note, unmapped_plan,
  routed_plan,
}

abbrev IsAll : CapabilityLevel → List CapabilityLevel → Type 0
IsAll l = All (λ m. m ≡ l)

note_iff :
    (route : QueryRoute) (qt : QueryType) (language : Text) (dims : List CapabilityDimension)
    → (build_degradation_note route qt language dims ≡ [])
      ↔ ((route ≡ graph_first) ⊎ (route ≡ merged))
unfolding build_degradation_note
note_iff graph_first qt language dims = ground arith
note_iff _ qt language dims = ground arith

-- The plan of a query type that is not SEARCH_TEXT, by its entry in the table.
abbrev table_plan : QueryType → Text → CapabilityMatrix → Option (List CapabilityDimension) → Plan
table_plan qt language caps none = unmapped_plan qt language caps
table_plan qt language caps (some []) = unmapped_plan qt language caps
table_plan qt language caps (some (d ∷ ds)) = routed_plan qt language caps (d ∷ ds)

table_plan-note_iff :
    (qt : QueryType) (language : Text) (caps : CapabilityMatrix)
    (o : Option (List CapabilityDimension))
    → ((table_plan qt language caps o).degradation_note ≡ [])
      ↔ (uses_graph (table_plan qt language caps o) ≡ true)
table_plan-note_iff qt language caps none = (λ e. cc, λ e. cc)
table_plan-note_iff qt language caps (some []) = (λ e. cc, λ e. cc)
table_plan-note_iff qt language caps (some (d ∷ ds)) =
    let route = select_route (map (level_of caps) (d ∷ ds)) in
    ground (arith, note_iff route qt language (d ∷ ds))

plan-table_plan :
    (capability_for : Text → CapabilityMatrix) (qt : QueryType) (language : Text)
    → (qt == search_text) ≡ false
    → plan capability_for qt language
      ≡ table_plan qt language (capability_for language) (lookup qt query_dimensions)
unfolding plan
plan-table_plan capability_for qt language other = rw (other, plan)

-- A plan carries no degradation note exactly if it uses the graph or is for SEARCH_TEXT, whatever
-- the capability lookup, the query type and the language.
pub plan-note_iff :
    (capability_for : Text → CapabilityMatrix) (qt : QueryType) (language : Text)
    → ((plan capability_for qt language).degradation_note ≡ [])
      ↔ ((uses_graph (plan capability_for qt language) ≡ true) ⊎ (qt ≡ search_text))
unfolding plan
plan-note_iff capability_for qt language = elim (Bool-cases (qt == search_text)) [
  | inl text ↦ rw (text, plan) (λ _. inr ((text_beq_iff qt search_text).0 text), λ _. refl)
  | inr other ↦
      let (to, from) =
        table_plan-note_iff qt language (capability_for language) (lookup qt query_dimensions) in
      rw (plan-table_plan capability_for qt language other) (
        λ e. inl (to e),
        λ d. elim d [ inl graph ↦ from graph | inr e ↦ cc ((text_beq_iff qt search_text).1 e) ],
      )
]

-- The route and the capabilities of a plan, from the language's matrix.
route_for : CapabilityMatrix → QueryType → QueryRoute
route_for caps qt = if qt == search_text then lexical_first else elim (lookup qt query_dimensions) [
  | none ↦ degraded
  | some [] ↦ degraded
  | some (d ∷ ds) ↦ select_route (map (level_of caps) (d ∷ ds))
]

plan-route_for :
    (capability_for : Text → CapabilityMatrix) (qt : QueryType) (language : Text)
    → ((plan capability_for qt language).route ≡ route_for (capability_for language) qt)
      × ((plan capability_for qt language).capabilities ≡ capability_for language)
unfolding plan route_for
plan-route_for capability_for qt language = ground arith

-- With the built-in matrices neither case nor surrounding white space of the language changes
-- the route or the capabilities of a plan.
pub plan-pad :
    (qt : QueryType) (p s q : Text)
    → AllSpace p
    → AllSpace q
    → ((plan capability_matrix_for qt (p ++ (to_upper s ++ q))).route
        ≡ (plan capability_matrix_for qt s).route)
      × ((plan capability_matrix_for qt (p ++ (to_upper s ++ q))).capabilities
          ≡ (plan capability_matrix_for qt s).capabilities)
plan-pad qt p s q hp hq =
    let padded = plan-route_for capability_matrix_for qt (p ++ (to_upper s ++ q)) in
    let plain = plan-route_for capability_matrix_for qt s in
    let same = capability_matrix_for-pad p s q hp hq in
    (
      padded.0 ∙ (ap (λ caps. route_for caps qt) same ∙ sym plain.0),
      padded.1 ∙ (same ∙ sym plain.1),
    )
