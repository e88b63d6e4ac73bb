-- ===== src/Linker/Topic.antt =====
-- internal/analyzer/linker/topic_linker.go: producers call the consumers of the same topic.
pub mod Calls
pub mod Laws
use code_iq.Base.{
  Bool, true, false, not, ◌&&◌, ◌||◌, Option, none, some, List, [], ◌∷◌, ◌++◌, ◌==◌, map, keep,
  contains, flat, if◌then◌else◌,
}
use code_iq.Base.Text.{Text, text_eq, lit}
use code_iq.Base.Assoc.{keys}
use code_iq.Base.Sort.{sort_by}
use code_iq.Base.Groups.{distinct, group, get}
use code_iq.Model.NodeKind
use code_iq.Model.NodeKind.{NodeKind}
use code_iq.Model.EdgeKind
use code_iq.Model.EdgeKind.{EdgeKind}
use code_iq.Model.Confidence
use code_iq.Model.Node.{CodeNode, CodeEdge, text}
use code_iq.Linker.{Linked, inferred, src_topic_linker}

-- The three sets of kinds.
unfoldable pub is_producer : EdgeKind → Bool
is_producer EdgeKind.produces = true
is_producer EdgeKind.sends_to = true
is_producer EdgeKind.publishes = true
is_producer _ = false

unfoldable pub is_consumer : EdgeKind → Bool
is_consumer EdgeKind.consumes = true
is_consumer EdgeKind.receives_from = true
is_consumer EdgeKind.listens = true
is_consumer _ = false

unfoldable pub is_topic : NodeKind → Bool
is_topic NodeKind.topic = true
is_topic NodeKind.queue = true
is_topic NodeKind.event = true
is_topic NodeKind.message_queue = true
is_topic _ = false

abbrev pub topic_edge : Text → Text → Text → CodeEdge
topic_edge label p c = record {
  id = lit "topic-link:" ++ (p ++ (lit "->" ++ c));
  kind = EdgeKind.calls;
  source_id = p;
  target_id = c;
  confidence = Confidence.lexical;
  source = src_topic_linker;
  properties = inferred ++ (lit "topic", text label) ∷ [];
}

-- The ends of the edges of some kind, by the topic that they lead to.
abbrev pub ends_by_topic : (EdgeKind → Bool) → List CodeEdge → List (Text × List Text)
ends_by_topic test edges =
    group (λ e. e.target_id) (λ e. e.source_id) (keep (λ e. test e.kind) edges)

-- An edge whose kind is in both sets counts as a producer's.
abbrev pub consumes_only : EdgeKind → Bool
consumes_only k = if is_producer k then false else is_consumer k

-- The ends of all topics of a label: `sortedKeys` of the set.
unfoldable pub ends_of : List (Text × List Text) → List Text → List Text
ends_of ends topic_ids = sort_by (λ s. s) (distinct (flat (λ t. get t ends) topic_ids))

-- The two inner loops.
unfoldable pub pair_up : Text → List Text → List Text → List CodeEdge
pair_up label prods cons =
    flat (λ p. flat (λ c. if p == c then [] else topic_edge label p c ∷ []) cons) prods

unfoldable pub topics_by_label : List CodeNode → List (Text × List Text)
topics_by_label nodes = group (λ n. n.label) (λ n. n.id) (keep (λ n. is_topic n.kind) nodes)

unfoldable pub link_topics : List CodeNode → List CodeEdge → Linked
unfolding topics_by_label ends_of pair_up
link_topics nodes edges =
    let topic_ids = topics_by_label nodes in
    let producers = ends_by_topic is_producer edges in
    let consumers = ends_by_topic consumes_only edges in
    let ids_of = λ (label : Text). get label topic_ids in
    elim topic_ids [
      | [] ↦ record { nodes = []; edges = [] }
      | entry ∷ entries ↦ record {
        nodes = [];
        edges =
            flat
              (λ label.
                pair_up label (ends_of producers (ids_of label)) (ends_of consumers (ids_of label)))
              (sort_by (λ s. s) (keys (entry ∷ entries)));
      }
    ]
