-- ===== src/Analyzer/Layers/Laws.antt =====
-- What the layer of a node depends on.
use code_iq.Base.{
  ◌≡◌, refl, ap, ap₂, ◌⊎◌, inl, inr, Bool, true, false, Option, none, some, List, [], ◌∷◌,
  Option-cases,
}
use code_iq.Model.NodeKind.{NodeKind}
use code_iq.Model.Layer.{Layer, frontend, backend, infra, shared, unknown}
use code_iq.Model.Node.{CodeNode}
use code_iq.Analyzer.Layers.{Patterns, layer_of_kind, classify_one, classify}

-- A second classification changes nothing: the layer that a node has plays no part.
pub classify_idem :
    (re : Patterns) (ns : List CodeNode) → classify re (classify re ns) ≡ classify re ns
unfolding classify classify_one
classify_idem re [] = refl
classify_idem re (n ∷ ns) = ap₂ ◌∷◌ refl (classify_idem re ns)

-- No set of kinds stands for `unknown`.
is_unknown : Option Layer → Bool
is_unknown (some unknown) = true
is_unknown _ = false

layer_of_kind_known : (k : NodeKind) → is_unknown (layer_of_kind k) ≡ false
unfolding layer_of_kind is_unknown
layer_of_kind_known NodeKind.module_node = refl
layer_of_kind_known _ = refl

-- A kind of the frontend, backend or infra set decides the layer by itself, whatever the rest of
-- the node and the patterns: the kind of a node is in no set, or in the shared set, or in the
-- set of the layer that the node gets.
pub classify_one-kind :
    (re : Patterns) (n : CodeNode)
    → (layer_of_kind n.kind ≡ none)
      ⊎ ((layer_of_kind n.kind ≡ some shared) ⊎ (layer_of_kind n.kind ≡ some (classify_one re n)))
unfolding classify_one is_unknown
classify_one-kind re n = elim (Option-cases (layer_of_kind n.kind)) [
  | inl no_set ↦ inl no_set
  | inr (frontend, e) ↦ inr (inr (rw (e, classify_one) refl))
  | inr (backend, e) ↦ inr (inr (rw (e, classify_one) refl))
  | inr (infra, e) ↦ inr (inr (rw (e, classify_one) refl))
  | inr (shared, e) ↦ inr (inl e)
  | inr (unknown, e) ↦ cc (ap is_unknown e, layer_of_kind_known n.kind)
]
