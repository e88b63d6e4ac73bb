-- ===== src/Tests/Planning.antt =====
-- The query planner at concrete languages and levels.
use code_iq.Base.{◌≡◌, refl, ◌↔◌, ◌⊎◌, true, [], ◌∷◌}
use code_iq.Base.Text.{text_eq, lit, is_space}
use code_iq.Base.Text.Fold.{AllSpace}
use code_iq.QueryPlan.Plan.{
  partial, lexical_only, dimension_eq, merged, search_text, find_callers, uses_graph,
}
use code_iq.QueryPlan.Capabilities.{capability_matrix_for}
use code_iq.QueryPlan.Planner.{select_route, plan}
use code_iq.QueryPlan.Planner.Laws.{plan-note_iff}

-- A mix of PARTIAL and LEXICAL_ONLY is merged, though lexical search comes first in the comment
-- of the source.
partial_and_lexical : select_route (partial ∷ lexical_only ∷ []) ≡ merged
unfolding select_route
partial_and_lexical = refl

plan-note_iff_example :
    ((plan capability_matrix_for find_callers (lit "java")).degradation_note ≡ []) ↔ (
      (uses_graph (plan capability_matrix_for find_callers (lit "java")) ≡ true)
      ⊎ (find_callers ≡ search_text))
plan-note_iff_example = plan-note_iff capability_matrix_for find_callers (lit "java")

spaces : AllSpace (lit " ")
unfolding is_space
spaces = (refl, tt)
