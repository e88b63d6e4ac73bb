-- ===== src/Linker.antt =====
-- internal/analyzer/linker: what runs over the snapshot and adds edges between files.
pub mod Topic
pub mod Entity
pub mod Containment
use code_iq.Base.{Bool, true, List, [], ◌∷◌}
use code_iq.Base.Text.{Text, lit}
use code_iq.Base.Sort.{sort_by}
use code_iq.Model.Node.{CodeNode, CodeEdge, Value, flag}

-- `Result`.
pub record Linked : Type 0 where
  pub nodes : List CodeNode
  pub edges : List CodeEdge

-- `Sorted`.
unfoldable pub sorted : Linked → Linked
sorted r = record { nodes = sort_by (λ n. n.id) r.nodes; edges = sort_by (λ e. e.id) r.edges }

-- The source tags of the three linkers.
abbrev pub src_topic_linker : Text
src_topic_linker = lit "linker:topic"

abbrev pub src_entity_linker : Text
src_entity_linker = lit "linker:entity"

abbrev pub src_module_containment_linker : Text
src_module_containment_linker = lit "linker:module_containment"

abbrev pub all_sources : List Text
all_sources = src_topic_linker ∷ src_entity_linker ∷ src_module_containment_linker ∷ []

-- `map[string]any{"inferred": true}`
abbrev pub inferred : List (Text × Value)
inferred = (lit "inferred", flag true) ∷ []
