-- ===== src/Flow/Edges/Drawn.antt =====
-- The views that draw all of their edges.
use code_iq.Base.{◌≡◌}
use code_iq.Base.Text.{Text}
use code_iq.Model.Node.{Value}
use code_iq.Flow.Models.{valid_edges}
use code_iq.Flow.Views.{GraphView}
use code_iq.Flow.Overview.{build_overview}
use code_iq.Flow.Runtime.{build_runtime_view}
use code_iq.Flow.Auth.{build_auth_view}
use code_iq.Flow.Edges.Overview.{build_overview-valid}
use code_iq.Flow.Edges.Tiers.{build_runtime_view-valid, build_auth_view-valid}

-- Whatever the graph holds, the filter for dangling edges removes nothing from the overview, the
-- runtime view and the view of the guards.
pub views-valid :
    (format_value : Value → Text) (snap : GraphView)
    → (valid_edges (build_overview snap) ≡ (build_overview snap).edges)
      × (valid_edges (build_runtime_view snap) ≡ (build_runtime_view snap).edges)
      × (valid_edges (build_auth_view format_value snap)
          ≡ (build_auth_view format_value snap).edges)
views-valid format_value snap = (
  build_overview-valid snap,
  build_runtime_view-valid snap,
  build_auth_view-valid format_value snap,
)
