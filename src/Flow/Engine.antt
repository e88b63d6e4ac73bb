-- ===== src/Flow/Engine.antt =====
-- internal/flow/views.go and engine.go: the views by name, and the engine that loads a snapshot and
-- builds them. The store's two loaders are arguments, over a world that they may change.
pub mod Dispatch
use code_iq.Base.{Bool, true, false, not, ◌||◌, List, [], ◌∷◌, ◌==◌, map, if◌then◌else◌}
use code_iq.Base.Text.{Text, text_eq, lit}
use code_iq.Model.Node.{CodeNode, CodeEdge, Value}
use code_iq.Flow.Models.{Diagram, new_diagram}
use code_iq.Flow.Views.{GraphView}
use code_iq.Flow.Overview.{build_overview}
use code_iq.Flow.Ci.{build_ci_view}
use code_iq.Flow.Deploy.{build_deploy_view}
use code_iq.Flow.Runtime.{build_runtime_view}
use code_iq.Flow.Auth.{build_auth_view}

abbrev pub all_views : List Text
all_views = lit "overview" ∷ lit "ci" ∷ lit "deploy" ∷ lit "runtime" ∷ lit "auth" ∷ []

unfoldable pub is_known_view : Text → Bool
is_known_view s =
    s == lit "overview"
    || s == lit "ci"
    || s == lit "deploy"
    || s == lit "runtime"
    || s == lit "auth"

-- What a loader returns.
pub data Load (E A : Type 0) : Type 0 where
  loaded : A → Load E A
  failed : E → Load E A

pub record Store (W E : Type 0) : Type 0 where
  pub load_all_nodes : W → Load E (List CodeNode) × W
  pub load_all_edges : W → Load E (List CodeEdge) × W

-- The errors of `Generate`: each names what went wrong.
pub data FlowError (E : Type 0) : Type 0 where
  unknown_view : Text → FlowError E
  nodes_not_loaded : E → FlowError E
  edges_not_loaded : E → FlowError E

module _ {W E : Type 0} where
  abbrev with_edges : List CodeNode → Load E (List CodeEdge) × W → Load (FlowError E) GraphView × W
  with_edges nodes (loaded edges, w) = (loaded (record { nodes = nodes; edges = edges }), w)
  with_edges nodes (failed e, w) = (failed (edges_not_loaded e), w)

  abbrev with_nodes : Store W E → Load E (List CodeNode) × W → Load (FlowError E) GraphView × W
  with_nodes store (loaded nodes, w) = with_edges nodes (store.load_all_edges w)
  with_nodes store (failed e, w) = (failed (nodes_not_loaded e), w)

  unfoldable pub load_snapshot : Store W E → W → Load (FlowError E) GraphView × W
  load_snapshot store w = with_nodes store (store.load_all_nodes w)

  abbrev pub then_build :
      {A : Type 0} → (GraphView → A) → Load (FlowError E) GraphView × W → Load (FlowError E) A × W
  then_build build (loaded snap, w) = (loaded (build snap), w)
  then_build build (failed e, w) = (failed e, w)

module _ (format_value : Value → Text) where
  unfoldable pub generate_from_snapshot : Text → GraphView → Diagram
  generate_from_snapshot view snap =
      if view == lit "overview"
      then build_overview snap
      else if view == lit "ci"
      then build_ci_view snap
      else if view == lit "deploy"
      then build_deploy_view snap
      else if view == lit "runtime"
      then build_runtime_view snap
      else if view == lit "auth"
      then build_auth_view format_value snap
      else new_diagram (lit "Unknown View") view

  module _ {W E : Type 0} where
    unfoldable pub generate : Store W E → W → Text → Load (FlowError E) Diagram × W
    unfolding generate_from_snapshot load_snapshot is_known_view
    generate store w view =
        if not (is_known_view view)
        then (failed (unknown_view view), w)
        else then_build (generate_from_snapshot view) (load_snapshot store w)

    unfoldable pub generate_all : Store W E → W → Load (FlowError E) (List (Text × Diagram)) × W
    unfolding generate_from_snapshot load_snapshot
    generate_all store w =
        then_build (λ snap. map (λ v. (v, generate_from_snapshot v snap)) all_views)
          (load_snapshot store w)
