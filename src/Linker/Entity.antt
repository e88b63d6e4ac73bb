-- ===== src/Linker/Entity.antt =====
-- internal/analyzer/linker/entity_linker.go: repositories query the entities that they are named
-- after.
pub mod Registry
pub mod Laws
use mathlib.Core.List.{foldl}
use code_iq.Base.{
  ℕ, Bool, true, false, not, Option, none, some, List, [], ◌∷◌, ◌++◌, ◌==◌, map, keep, contains,
  if◌then◌else◌,
}
use code_iq.Base.Text.{Text, text_eq, lit, to_lower}
use code_iq.Base.Text.Search.{cut_suffix, after_last}
use code_iq.Base.Assoc.{lookup, insert}
use code_iq.Base.Sort.{sort_by}
use code_iq.Model.NodeKind
use code_iq.Model.NodeKind.{NodeKind}
use code_iq.Model.EdgeKind
use code_iq.Model.Confidence
use code_iq.Model.Node.{CodeNode, CodeEdge}
use code_iq.Linker.{Linked, inferred, src_entity_linker}

abbrev pub repo_suffixes : List Text
repo_suffixes = lit "Repository" ∷ lit "Repo" ∷ lit "Dao" ∷ lit "DAO" ∷ []

abbrev pub of_kind : NodeKind → List CodeNode → List CodeNode
of_kind k = keep (λ n. NodeKind.same n.kind k)

-- The FQN after its last dot.
abbrev pub simple_name : CodeNode → Text
simple_name n = after_last 46 n.fqn

-- One entity goes into the map by its label and by its simple name; a later one wins.
unfoldable pub register : List (Text × CodeNode) → CodeNode → List (Text × CodeNode)
register m e =
    let labelled = insert (to_lower e.label) e m in
    elim e.fqn [ [] ↦ labelled | c ∷ s ↦ insert (to_lower (simple_name e)) e labelled ]

unfoldable pub entity_by_name : List CodeNode → List (Text × CodeNode)
unfolding register
entity_by_name = foldl register []

abbrev pub pair_key : Text → Text → Text
pair_key s t = s ++ (lit "->" ++ t)

abbrev pub existing_queries : List CodeEdge → List Text
existing_queries edges =
    map (λ e. pair_key e.source_id e.target_id)
      (keep (λ e. EdgeKind.same e.kind EdgeKind.queries) edges)

-- What the first suffix that matches leaves of a label.
unfoldable pub base_name : List Text → Text → Option Text
base_name [] label = none
base_name (suffix ∷ suffixes) label =
    let later = base_name suffixes label in
    elim (cut_suffix suffix label) [ none ↦ later | some base ↦ some (to_lower base) ]

abbrev pub entity_edge : Text → Text → CodeEdge
entity_edge r e = record {
  id = lit "entity-link:" ++ (r ++ (lit "->" ++ e));
  kind = EdgeKind.queries;
  source_id = r;
  target_id = e;
  confidence = Confidence.lexical;
  source = src_entity_linker;
  properties = inferred;
}

-- The body of the loop over the repositories.
unfoldable pub link_repository : List (Text × CodeNode) → List Text → CodeNode → Option CodeEdge
unfolding base_name
link_repository entities existing repo = elim (base_name repo_suffixes repo.label) [
  | none ↦ none
  | some base ↦ elim (lookup base entities) [
    | none ↦ none
    | some ent ↦
        if contains (pair_key repo.id ent.id) existing
        then none
        else some (entity_edge repo.id ent.id)
  ]
]

-- The edges of a loop that appends at most one for an element.
abbrev pub gather : (CodeNode → Option CodeEdge) → List CodeNode → List CodeEdge
gather f [] = []
gather f (n ∷ ns) = elim (f n) [ none ↦ gather f ns | some e ↦ e ∷ gather f ns ]

abbrev pub is_none_of {ℓ} : {A : Type ℓ} → List A → Bool
is_none_of [] = true
is_none_of (x ∷ xs) = false

unfoldable pub link_entities : List CodeNode → List CodeEdge → Linked
unfolding entity_by_name link_repository
link_entities nodes edges =
    let entities = of_kind NodeKind.entity nodes in
    let repositories = of_kind NodeKind.repository nodes in
    let new_edges =
      gather (link_repository (entity_by_name entities) (existing_queries edges))
        (sort_by (λ n. n.id) repositories) in
    record {
      nodes = [];
      edges = if is_none_of entities then [] else if is_none_of repositories then [] else new_edges;
    }
