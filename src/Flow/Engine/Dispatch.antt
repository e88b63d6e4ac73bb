-- ===== src/Flow/Engine/Dispatch.antt =====
-- Which view the engine builds for a name.
use code_iq.Base.{
  ◌≡◌, refl, sym, ap, ◌∙◌, inl, inr, true, Option, some, List, [], ◌∷◌, ◌==◌, contains, map, arith,
  if◌then◌else◌, Bool-cases,
}
use code_iq.Base.Text.{Text, text_eq, text_beq_iff, lit}
use code_iq.Base.Assoc.{lookup}
use code_iq.Model.Node.{Value}
use code_iq.Flow.Models.{Diagram}
use code_iq.Flow.Views.{GraphView}
use code_iq.Flow.Overview.{build_overview}
use code_iq.Flow.Ci.{build_ci_view}
use code_iq.Flow.Deploy.{build_deploy_view}
use code_iq.Flow.Runtime.{build_runtime_view}
use code_iq.Flow.Auth.{build_auth_view}
use code_iq.Flow.Engine.{
  all_views, is_known_view, Load, loaded, failed, Store, FlowError, unknown_view, load_snapshot,
  then_build, generate_from_snapshot, generate, generate_all,
}

is_known_view_iff : (view : Text) → is_known_view view ≡ contains view all_views
unfolding is_known_view
is_known_view_iff view = ground arith

-- The diagram under a name among all that were generated, beside the world.
abbrev pub pick :
    {W E : Type 0}
    → Text
    → Load (FlowError E) (List (Text × Diagram)) × W
    → Load (FlowError E) (Option Diagram) × W
pick view (loaded all, w) = (loaded (lookup view all), w)
pick view (failed e, w) = (failed e, w)

abbrev pub found :
    {W E : Type 0} → Load (FlowError E) Diagram × W → Load (FlowError E) (Option Diagram) × W
found (loaded d, w) = (loaded (some d), w)
found (failed e, w) = (failed e, w)

lookup-map :
    {A : Type 0} (f : Text → A) (k : Text) (ks : List Text)
    → contains k ks ≡ true
    → lookup k (map (λ v. (v, f v)) ks) ≡ some (f k)
unfolding lookup
lookup-map f k [] h = cc
lookup-map f k (j ∷ ks) h = elim (Bool-cases (j == k)) [
  | inl here ↦ rw here (ap (λ t. some (f t)) ((text_beq_iff j k).0 here))
  | inr other ↦ rw other (lookup-map f k ks (ground (arith, text_beq_iff j k, text_beq_iff k j)))
]

then_build-pick :
    {W E : Type 0} (build : Text → GraphView → Diagram) (view : Text)
    → contains view all_views ≡ true
    → (l : Load (FlowError E) GraphView × W)
    → found (then_build (build view) l)
      ≡ pick view (then_build (λ snap. map (λ v. (v, build v snap)) all_views) l)
then_build-pick build view h (failed e, w) = refl
then_build-pick build view h (loaded snap, w) =
    ap (λ d. (loaded d, w)) (sym (lookup-map (λ v. build v snap) view all_views h))

overview-view : (snap : GraphView) → (build_overview snap).view ≡ lit "overview"
unfolding build_overview
overview-view snap = refl

ci-view : (snap : GraphView) → (build_ci_view snap).view ≡ lit "ci"
unfolding build_ci_view
ci-view snap = refl

deploy-view : (snap : GraphView) → (build_deploy_view snap).view ≡ lit "deploy"
unfolding build_deploy_view
deploy-view snap = refl

runtime-view : (snap : GraphView) → (build_runtime_view snap).view ≡ lit "runtime"
unfolding build_runtime_view
runtime-view snap = refl

auth-view :
    (format_value : Value → Text) (snap : GraphView)
    → (build_auth_view format_value snap).view ≡ lit "auth"
unfolding build_auth_view
auth-view format_value snap = refl

-- One case of the dispatch.
dispatch :
    (name view : Text) (this other : Diagram)
    → this.view ≡ name
    → other.view ≡ view
    → (if view == name then this else other).view ≡ view
dispatch name view this other e f = elim (Bool-cases (view == name)) [
  | inl here ↦ rw here (e ∙ sym ((text_beq_iff view name).0 here))
  | inr later ↦ rw later f
]

generate_from_snapshot-view :
    (format_value : Value → Text) (view : Text) (snap : GraphView)
    → (generate_from_snapshot format_value view snap).view ≡ view
unfolding generate_from_snapshot
generate_from_snapshot-view format_value view snap =
    dispatch (lit "overview") view (build_overview snap) _ (overview-view snap) (
      dispatch (lit "ci") view (build_ci_view snap) _ (ci-view snap) (
        dispatch (lit "deploy") view (build_deploy_view snap) _ (deploy-view snap) (
          dispatch (lit "runtime") view (build_runtime_view snap) _ (runtime-view snap) (
            dispatch (lit "auth") view (build_auth_view format_value snap) _
              (auth-view format_value snap) refl))))

-- A name that is no view is an error that leaves the world as it was, whatever the loaders would do
-- to it. For each view, `Generate` returns the diagram or the error that `GenerateAll` returns for it and leaves the same
-- world, and the diagram carries the name of the view.
pub generate_lem :
    {W E : Type 0} (format_value : Value → Text) (store : Store W E) (w : W) (view : Text)
    → (found (generate format_value store w view) ≡ (
        if contains view all_views
        then pick view (generate_all format_value store w)
        else (failed (unknown_view view), w)))
      × ((snap : GraphView) → (generate_from_snapshot format_value view snap).view ≡ view)
unfolding generate generate_all
generate_lem format_value store w view = (
  elim (Bool-cases (contains view all_views)) [
    | inl known ↦
        rw (is_known_view_iff view ∙ known, known)
          (then_build-pick (generate_from_snapshot format_value) view known (load_snapshot store w))
    | inr unknown ↦ rw (is_known_view_iff view ∙ unknown, unknown) refl
  ],
  generate_from_snapshot-view format_value view,
)
