-- ===== src/Linker/Topic/Laws.antt =====
-- Which calls the topic linker adds.
use code_iq.Base.{
  ◌≡◌, refl, ap, ◌∙◌, Bool, true, not, ◌&&◌, List, [], ◌∷◌, ◌==◌, map, keep, contains,
  contains-flat, contains-map-flat, flat, any, any_ext, arith,
}
use code_iq.Base.Text.{Text, text_eq, text_beq_iff}
use code_iq.Base.Assoc.{keys, has}
use code_iq.Base.Assoc.Distinct.{contains-keys}
use code_iq.Base.Sort.{sort_by, sort_by-perm}
use code_iq.Base.Members.{contains-perm}
use code_iq.Base.Groups.{distinct, contains-distinct, get, get-group, has-group}
use code_iq.Model.EdgeKind.{EdgeKind}
use code_iq.Model.Node.{CodeNode, CodeEdge}
use code_iq.Linker.{Linked}
use code_iq.Linker.Topic.{
  is_producer, is_topic, consumes_only, ends_by_topic, ends_of, pair_up, topics_by_label,
  link_topics,
}
use code_iq.Linker.Topic.Calls.{Call, call_of, call_eq, contains-pair_up}

-- Some edge of such a kind leads from `s` to a topic with the label.
abbrev pub reaches_topic : (EdgeKind → Bool) → List CodeNode → List CodeEdge → Text → Text → Bool
reaches_topic test nodes edges label s =
    any
      (λ n.
        is_topic n.kind
        && (n.label == label
            && any (λ e. test e.kind && (e.source_id == s && e.target_id == n.id)) edges))
      nodes

contains-ends :
    (test : EdgeKind → Bool) (s t : Text) (edges : List CodeEdge)
    → contains s
        (map (λ e. e.source_id) (keep (λ e. e.target_id == t) (keep (λ e. test e.kind) edges)))
      ≡ any (λ e. test e.kind && (e.source_id == s && e.target_id == t)) edges
contains-ends test s t [] = refl
contains-ends test s t (e ∷ edges) =
    ground
      (arith, text_beq_iff s e.source_id, text_beq_iff e.source_id s, contains-ends test s t edges)

any-ids :
    (f : Text → Bool) (label : Text) (nodes : List CodeNode)
    → any f (map (λ n. n.id) (keep (λ n. n.label == label) (keep (λ n. is_topic n.kind) nodes)))
      ≡ any (λ n. is_topic n.kind && (n.label == label && f n.id)) nodes
any-ids f label [] = refl
any-ids f label (n ∷ nodes) = ground (arith, any-ids f label nodes)

module _ (nodes : List CodeNode) (edges : List CodeEdge) where
  contains-ends_of :
      (test : EdgeKind → Bool) (label s : Text)
      → contains s (ends_of (ends_by_topic test edges) (get label (topics_by_label nodes)))
        ≡ reaches_topic test nodes edges label s
  unfolding ends_of topics_by_label
  contains-ends_of test label s =
      let ids = get label (topics_by_label nodes) in
      let ends = ends_by_topic test edges in
      contains-perm s (sort_by-perm (λ t. t) (distinct (flat (λ t. get t ends) ids)))
      ∙ (contains-distinct s (flat (λ t. get t ends) ids)
          ∙ (contains-flat s (λ t. get t ends) ids
              ∙ (any_ext (λ t. contains s (get t ends))
                    (λ t. any (λ e. test e.kind && (e.source_id == s && e.target_id == t)) edges)
                    (λ t.
                      ap (contains s) (
                        get-group (λ e. e.target_id) (λ e. e.source_id) t
                          (keep (λ e. test e.kind) edges))
                      ∙ contains-ends test s t edges)
                    ids
                  ∙ (ap
                        (any (λ t.
                          any (λ e. test e.kind && (e.source_id == s && e.target_id == t)) edges))
                        (get-group (λ n. n.label) (λ n. n.id) label
                          (keep (λ n. is_topic n.kind) nodes))
                      ∙ any-ids
                          (λ t.
                            any (λ e. test e.kind && (e.source_id == s && e.target_id == t)) edges)
                          label nodes))))

any-at :
    (t : Text) (f : Text → Bool) (ls : List Text)
    → any (λ l. l == t && f l) ls ≡ (contains t ls && f t)
any-at t f [] = refl
any-at t f (l ∷ ls) = ground (arith, text_beq_iff l t, text_beq_iff t l, any-at t f ls)

contains-label :
    (test : EdgeKind → Bool) (nodes : List CodeNode) (edges : List CodeEdge) (label s : Text)
    → reaches_topic test nodes edges label s ≡ true
    → contains label (map (λ n. n.label) (keep (λ n. is_topic n.kind) nodes)) ≡ true
contains-label test [] edges label s h = cc
contains-label test (n ∷ nodes) edges label s h = ground (
  arith,
  text_beq_iff label n.label,
  text_beq_iff n.label label,
  contains-label test nodes edges label s,
)

link_edges :
    (f : Text → List CodeEdge) (m : List (Text × List Text))
    → (elim m as (λ _. Linked) [
      | [] ↦ record { nodes = []; edges = [] }
      | entry ∷ entries ↦ record {
        nodes = [];
        edges = flat f (sort_by (λ s. s) (keys (entry ∷ entries)));
      }
    ]).edges
      ≡ flat f (sort_by (λ s. s) (keys m))
unfolding sort_by
link_edges f [] = refl
link_edges f (entry ∷ entries) = refl

has-topic :
    (nodes : List CodeNode) (label : Text)
    → has label (topics_by_label nodes)
      ≡ contains label (map (λ n. n.label) (keep (λ n. is_topic n.kind) nodes))
unfolding topics_by_label
has-topic nodes label =
    has-group (λ n. n.label) (λ n. n.id) label (keep (λ n. is_topic n.kind) nodes)

-- The linker adds a call from one node to another over a label exactly when they differ, some
-- producing edge leads from the first to a topic node with the label, and some consuming edge
-- from the second to a topic node with the label.
pub link_topics_iff :
    (nodes : List CodeNode) (edges : List CodeEdge) (p c label : Text)
    → contains
        (record { producer = p; consumer = c; topic = label })
        (map call_of (link_topics nodes edges).edges)
      ≡ (reaches_topic is_producer nodes edges label p
          && (reaches_topic consumes_only nodes edges label c && not (p == c)))
unfolding link_topics
link_topics_iff nodes edges p c label =
    let call : Call = record { producer = p; consumer = c; topic = label } in
    let ends = λ (test : EdgeKind → Bool) (l : Text).
      ends_of (ends_by_topic test edges) (get l (topics_by_label nodes)) in
    let block = λ (l : Text). pair_up l (ends is_producer l) (ends consumes_only l) in
    let labels = sort_by (λ s. s) (keys (topics_by_label nodes)) in
    let both = λ (l : Text).
      contains p (ends is_producer l) && (contains c (ends consumes_only l) && not (p == c)) in
    let split =
      any_ext (λ l. contains call (map call_of (block l))) (λ l. l == label && both l)
        (λ l. contains-pair_up p c label l (ends is_producer l) (ends consumes_only l)) labels in
    let listed =
      contains-perm label (sort_by-perm (λ s. s) (keys (topics_by_label nodes)))
      ∙ (contains-keys label (topics_by_label nodes) ∙ has-topic nodes label) in
    ap (λ es. contains call (map call_of es)) (link_edges block (topics_by_label nodes))
    ∙ (contains-map-flat call call_of block labels
        ∙ (split
            ∙ (any-at label both labels
                ∙ ground (
                  arith,
                  listed,
                  contains-ends_of nodes edges is_producer label p,
                  contains-ends_of nodes edges consumes_only label c,
                  contains-label is_producer nodes edges label p,
                ))))
