-- ===== src/Analyzer/Merge.antt =====
-- internal/analyzer/merger.go. A merge gets no nil pointer from its one caller, `add`, so the
-- nodes and edges stand for themselves. The map of `unionSorted` is visited in an order that
-- does not matter, since its keys are sorted.
pub mod Annotations
pub mod Laws
use code_iq.Base.{
  ℕ, Bool, true, false, ◌&&◌, List, [], ◌∷◌, ◌++◌, ◌==◌, ◌≡◌, ◌↔◌, Eq, contains, nat_eq,
  if◌then◌else◌, arith,
}
use code_iq.Base.Text.{Text, text_eq, text_beq_iff}
use code_iq.Base.Assoc.{fill}
use code_iq.Base.Sort.{sort_by}
use code_iq.Model.EdgeKind
use code_iq.Model.EdgeKind.{EdgeKind}
use code_iq.Model.Layer
use code_iq.Model.Layer.{Layer}
use code_iq.Model.Confidence.{above}
use code_iq.Model.Node.{CodeNode, CodeEdge}

-- `seen` of `unionSorted`, by its keys.
unfoldable pub dedupe : List Text → List Text
dedupe [] = []
dedupe (s ∷ ss) = if contains s ss then dedupe ss else s ∷ dedupe ss

unfoldable pub union_sorted : List Text → List Text → List Text
union_sorted a b = sort_by (λ s. s) (dedupe (a ++ b))

-- `if survivor.F == "" && donor.F != "" { survivor.F = donor.F }`, and for numbers with 0.
abbrev pub fill_text : Text → Text → Text
fill_text [] d = d
fill_text (c ∷ s) d = c ∷ s

abbrev pub fill_number : ℕ → ℕ → ℕ
fill_number s d = if s == 0 then d else s

abbrev pub fill_layer : Layer → Layer → Layer
fill_layer Layer.unknown d = d
fill_layer s d = s

-- What the donor gives the survivor.
unfoldable pub absorb_node : CodeNode → CodeNode → CodeNode
absorb_node survivor donor = record survivor {
  fqn = fill_text survivor.fqn donor.fqn;
  in_module = fill_text survivor.in_module donor.in_module;
  file_path = fill_text survivor.file_path donor.file_path;
  line_start = fill_number survivor.line_start donor.line_start;
  line_end = fill_number survivor.line_end donor.line_end;
  layer = fill_layer survivor.layer donor.layer;
  source = fill_text survivor.source donor.source;
  properties = fill survivor.properties donor.properties;
  annotations = union_sorted survivor.annotations donor.annotations;
}

unfoldable pub merge_node : CodeNode → CodeNode → CodeNode
merge_node existing incoming =
    if above incoming.confidence existing.confidence
    then absorb_node incoming existing
    else absorb_node existing incoming

unfoldable pub absorb_edge : CodeEdge → CodeEdge → CodeEdge
absorb_edge survivor donor = record survivor {
  source = fill_text survivor.source donor.source;
  properties = fill survivor.properties donor.properties;
}

unfoldable pub merge_edge : CodeEdge → CodeEdge → CodeEdge
merge_edge existing incoming =
    if above incoming.confidence existing.confidence
    then absorb_edge incoming existing
    else absorb_edge existing incoming

-- The key by which edges are deduplicated.
pub record EdgeKey : Type 0 where
  pub source : Text
  pub target : Text
  pub kind : EdgeKind

abbrev pub make_edge_key : CodeEdge → EdgeKey
make_edge_key e = record { source = e.source_id; target = e.target_id; kind = e.kind }

-- `==` on two keys.
unfoldable pub edge_key_beq : EdgeKey → EdgeKey → Bool
edge_key_beq a b = a.source == b.source && (a.target == b.target && EdgeKind.same a.kind b.kind)

pub edge_key_beq_iff : (a b : EdgeKey) → (edge_key_beq a b ≡ true) ↔ (a ≡ b)
unfolding edge_key_beq
edge_key_beq_iff a b = ground (
  arith,
  text_beq_iff a.source b.source,
  text_beq_iff a.target b.target,
  EdgeKind.same_iff a.kind b.kind,
)

instance abbrev pub edge_key_eq : Eq EdgeKey
edge_key_eq = record { beq = edge_key_beq; beq_iff = edge_key_beq_iff }
