-- ===== src/Analyzer/Merge/Laws.antt =====
-- What a merge keeps of its two sides.
use Prim.Native.Nat.{max}
use code_iq.Base.{
  ℕ, ◌≤◌, ◌≡◌, refl, ◌≢◌, ◌↔◌, ◌⊎◌, ◌∙◌, inl, inr, false, ◌||◌, [], ◌∷◌, contains, if◌then◌else◌,
  arith, Bool-cases,
}
use code_iq.Base.Text.{Text, text_eq}
use code_iq.Base.Assoc.{lookup, has, fill, lookup-fill}
use code_iq.Model.Layer.{Layer}
use code_iq.Model.Confidence
use code_iq.Model.Confidence.{above}
use code_iq.Model.Node.{CodeNode, Properties}
use code_iq.Analyzer.Merge.Annotations
use code_iq.Analyzer.Merge.Annotations.{contains-union_sorted, union_sorted_lem}
use code_iq.Analyzer.Merge.{absorb_node, merge_node, fill_text, fill_number, fill_layer}

-- The side whose values win: the incoming one only if its confidence is higher.
abbrev pub survivor : CodeNode → CodeNode → CodeNode
survivor a b = if above b.confidence a.confidence then b else a

-- `r` has all that `a` and `b` have.
pub record HoldsBoth (a b r : CodeNode) : Type 0 where
  pub confidence :
      Confidence.ordinal r.confidence
      ≡ max (Confidence.ordinal a.confidence) (Confidence.ordinal b.confidence)
  pub properties : (k : Text) → has k r.properties ≡ (has k a.properties || has k b.properties)
  pub annotations :
      (s : Text) → contains s r.annotations ≡ (contains s a.annotations || contains s b.annotations)
  pub fqn : (r.fqn ≡ []) ↔ ((a.fqn ≡ []) × (b.fqn ≡ []))
  pub in_module : (r.in_module ≡ []) ↔ ((a.in_module ≡ []) × (b.in_module ≡ []))
  pub file_path : (r.file_path ≡ []) ↔ ((a.file_path ≡ []) × (b.file_path ≡ []))
  pub source : (r.source ≡ []) ↔ ((a.source ≡ []) × (b.source ≡ []))
  pub line_start : (r.line_start ≡ 0) ↔ ((a.line_start ≡ 0) × (b.line_start ≡ 0))
  pub line_end : (r.line_end ≡ 0) ↔ ((a.line_end ≡ 0) × (b.line_end ≡ 0))
  pub layer : (r.layer ≡ Layer.unknown) ↔ ((a.layer ≡ Layer.unknown) × (b.layer ≡ Layer.unknown))

has-fill : (k : Text) (m d : Properties) → has k (fill m d) ≡ (has k m || has k d)
unfolding has
has-fill k m d = ground (arith, lookup-fill k m d)

fill_text_nil : (s d : Text) → (fill_text s d ≡ []) ↔ ((s ≡ []) × (d ≡ []))
fill_text_nil [] d = (λ e. (refl, e), λ h. h.1)
fill_text_nil (c ∷ s) d = (λ e. (e, cc), λ h. h.0)

fill_number_zero : (s d : ℕ) → (fill_number s d ≡ 0) ↔ ((s ≡ 0) × (d ≡ 0))
fill_number_zero s d = ground arith

fill_layer_unknown :
    (s d : Layer) → (fill_layer s d ≡ Layer.unknown) ↔ ((s ≡ Layer.unknown) × (d ≡ Layer.unknown))
fill_layer_unknown Layer.frontend d = ground arith
fill_layer_unknown _ d = ground arith

absorb_node-HoldsBoth :
    (s d : CodeNode)
    → Confidence.ordinal d.confidence ≤ Confidence.ordinal s.confidence
    → HoldsBoth s d (absorb_node s d)
unfolding absorb_node
absorb_node-HoldsBoth s d h = record {
  confidence = omega arith;
  properties = λ k. has-fill k s.properties d.properties;
  annotations = λ t. contains-union_sorted t s.annotations d.annotations;
  fqn = fill_text_nil s.fqn d.fqn;
  in_module = fill_text_nil s.in_module d.in_module;
  file_path = fill_text_nil s.file_path d.file_path;
  source = fill_text_nil s.source d.source;
  line_start = fill_number_zero s.line_start d.line_start;
  line_end = fill_number_zero s.line_end d.line_end;
  layer = fill_layer_unknown s.layer d.layer;
}

flip_both {ℓ} : {P : Type 0} {A B : Type ℓ} → P ↔ (A × B) → P ↔ (B × A)
flip_both h = (λ p. let (a, b) = h.0 p in (b, a), λ (b, a). h.1 (a, b))

HoldsBoth-flip : (a b r : CodeNode) → HoldsBoth a b r → HoldsBoth b a r
HoldsBoth-flip a b r h = record {
  confidence = omega (arith, h.confidence);
  properties = λ k. h.properties k ∙ Annotations.or_comm (has k a.properties) (has k b.properties);
  annotations = λ t.
      h.annotations t ∙ Annotations.or_comm (contains t a.annotations) (contains t b.annotations);
  fqn = flip_both h.fqn;
  in_module = flip_both h.in_module;
  file_path = flip_both h.file_path;
  source = flip_both h.source;
  line_start = flip_both h.line_start;
  line_end = flip_both h.line_end;
  layer = flip_both h.layer;
}

-- The result of a merge has the higher of the two confidences, exactly the property keys and the
-- annotations of both sides, and an FQN, a module, a file path, a source, a first line, a last line
-- and a layer, each unless both sides lack it.
pub merge_node-HoldsBoth : (a b : CodeNode) → HoldsBoth a b (merge_node a b)
unfolding merge_node
merge_node-HoldsBoth a b = elim (Bool-cases (above b.confidence a.confidence)) [
  | inl up ↦
      rw (up, merge_node)
        (HoldsBoth-flip b a (absorb_node b a) (absorb_node-HoldsBoth b a (ground arith)))
  | inr down ↦ rw (down, merge_node) (absorb_node-HoldsBoth a b (ground arith))
]

-- The survivor's own values stay: its identity, and each property and field that it has.
pub record KeepsOwn (s r : CodeNode) : Type 0 where
  pub id : r.id ≡ s.id
  pub kind : r.kind ≡ s.kind
  pub label : r.label ≡ s.label
  pub property :
      (k : Text) → (has k s.properties ≡ false) ⊎ (lookup k r.properties ≡ lookup k s.properties)
  pub fqn : (s.fqn ≡ []) ⊎ (r.fqn ≡ s.fqn)
  pub in_module : (s.in_module ≡ []) ⊎ (r.in_module ≡ s.in_module)
  pub file_path : (s.file_path ≡ []) ⊎ (r.file_path ≡ s.file_path)
  pub source : (s.source ≡ []) ⊎ (r.source ≡ s.source)
  pub line_start : (s.line_start ≡ 0) ⊎ (r.line_start ≡ s.line_start)
  pub line_end : (s.line_end ≡ 0) ⊎ (r.line_end ≡ s.line_end)
  pub layer : (s.layer ≡ Layer.unknown) ⊎ (r.layer ≡ s.layer)

fill_text_own : (s d : Text) → (s ≡ []) ⊎ (fill_text s d ≡ s)
fill_text_own [] d = inl refl
fill_text_own (c ∷ s) d = inr refl

fill_number_own : (s d : ℕ) → (s ≡ 0) ⊎ (fill_number s d ≡ s)
fill_number_own s d = ground arith

fill_layer_own : (s d : Layer) → (s ≡ Layer.unknown) ⊎ (fill_layer s d ≡ s)
fill_layer_own Layer.unknown d = inl refl
fill_layer_own _ d = inr refl

absorb_node-KeepsOwn : (s d : CodeNode) → KeepsOwn s (absorb_node s d)
unfolding absorb_node has
absorb_node-KeepsOwn s d = record {
  id = refl;
  kind = refl;
  label = refl;
  property = λ k. ground (arith, lookup-fill k s.properties d.properties);
  fqn = fill_text_own s.fqn d.fqn;
  in_module = fill_text_own s.in_module d.in_module;
  file_path = fill_text_own s.file_path d.file_path;
  source = fill_text_own s.source d.source;
  line_start = fill_number_own s.line_start d.line_start;
  line_end = fill_number_own s.line_end d.line_end;
  layer = fill_layer_own s.layer d.layer;
}

-- The incoming node wins exactly if its confidence is higher. The winner keeps its ID, its kind and
-- its label, even an empty one; the value under each property key that it has, even a nil value;
-- and its FQN, module, file path, source, lines and layer where it has them.
pub merge_node-KeepsOwn : (a b : CodeNode) → KeepsOwn (survivor a b) (merge_node a b)
unfolding merge_node
merge_node-KeepsOwn a b = elim (Bool-cases (above b.confidence a.confidence)) [
  | inl up ↦ rw (up, merge_node) (absorb_node-KeepsOwn b a)
  | inr down ↦ rw (down, merge_node) (absorb_node-KeepsOwn a b)
]

-- Two emissions of different confidence merge to one node in either order.
pub merge_node_comm :
    (a b : CodeNode)
    → Confidence.ordinal a.confidence ≢ Confidence.ordinal b.confidence
    → merge_node a b ≡ merge_node b a
unfolding merge_node
merge_node_comm a b ne = ground arith
