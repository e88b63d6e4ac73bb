-- ===== src/Tests/Linking.antt =====
-- The linkers, the comparison with the cache and the layers at concrete inputs.
use mathlib.Core.List.Perm
use mathlib.Core.List.{Pairwise}
use code_iq.Base.{
  none, sym, ◌∙◌, ◌≡◌, refl, false, not, ◌&&◌, some, List, [], ◌∷◌, ◌==◌, map, keep, contains, All,
}
use code_iq.Base.Text.{Text, text_eq, text_beq, text_lt, lit, to_lower, lower}
use code_iq.Base.Text.Search.{cut_suffix}
use code_iq.Base.Assoc.{lookup, insert, keys, has}
use code_iq.Base.Sort.{sort_by, HasDistinctKeys}
use code_iq.Base.Groups.{distinct_from, group, append_to}
use code_iq.Model.NodeKind
use code_iq.Model.EdgeKind
use code_iq.Model.Node.{CodeNode, CodeEdge, new_code_node, new_code_edge}
use code_iq.Analyzer.Diff.{DiskFile, Cached, compare_files, place}
use code_iq.Analyzer.Diff.Laws.{is_new, is_changed, is_same, paths_of, compare_files_lem}
use code_iq.Analyzer.Diff.Table.{IsApart, store_all}
use code_iq.Analyzer.Diff.Stored.{compare_files-store_all}
use code_iq.Analyzer.Layers.{Patterns}
use code_iq.Linker.Topic.{
  is_producer, is_consumer, is_topic, consumes_only, link_topics, topics_by_label, ends_of, pair_up,
}
use code_iq.Linker.Topic.Calls.{call_of, call_eq}
use code_iq.Linker.Topic.Laws.{reaches_topic, link_topics_iff}
use code_iq.Linker.Entity.{
  repo_suffixes, of_kind, register, entity_by_name, base_name, link_entities,
}
use code_iq.Linker.Entity.Laws.{Managed, link_entities-Managed}
use code_iq.Tests.Samples.{all_differ-HasDistinctKeys}

abbrev user_entity : CodeNode
user_entity = new_code_node (lit "u") NodeKind.entity (lit "User")

abbrev user_repository : CodeNode
user_repository = new_code_node (lit "r") NodeKind.repository (lit "UserRepository")

abbrev orders : CodeNode
orders = new_code_node (lit "t") NodeKind.topic (lit "orders")

abbrev nodes : List CodeNode
nodes = user_repository ∷ user_entity ∷ orders ∷ []

abbrev edges : List CodeEdge
edges =
    new_code_edge (lit "e1") EdgeKind.produces (lit "shop") (lit "t")
    ∷ new_code_edge (lit "e2") EdgeKind.listens (lit "mail") (lit "t")
    ∷ []

-- The shop calls the mailer over the topic.
link_orders :
    map call_of (link_topics nodes edges).edges
    ≡ (record { producer = lit "shop"; consumer = lit "mail"; topic = lit "orders" }) ∷ []
unfolding link_topics topics_by_label ends_of pair_up group append_to distinct_from sort_by lookup
    insert text_beq text_lt is_topic is_producer is_consumer
link_orders = refl

link_topics_iff_example :
    contains
      (record { producer = lit "shop"; consumer = lit "mail"; topic = lit "orders" })
      (map call_of (link_topics nodes edges).edges)
    ≡ (reaches_topic is_producer nodes edges (lit "orders") (lit "shop")
        && (reaches_topic consumes_only nodes edges (lit "orders") (lit "mail")
            && not (lit "shop" == lit "mail")))
link_topics_iff_example = link_topics_iff nodes edges (lit "shop") (lit "mail") (lit "orders")

link_entities-Managed_example : All (Managed nodes edges) (link_entities nodes edges).edges
link_entities-Managed_example = link_entities-Managed nodes edges

base : base_name repo_suffixes (lit "UserRepository") ≡ some (lit "user")
unfolding base_name cut_suffix text_beq to_lower lower
base = refl

entry : lookup (lit "user") (entity_by_name (of_kind NodeKind.entity nodes)) ≡ some user_entity
unfolding entity_by_name register lookup insert text_beq to_lower lower
entry = refl

abbrev file : Text → Text → DiskFile
file p h = record { rel_path = p; hash = some h }

abbrev files : List DiskFile
files = file (lit "a.go") (lit "1") ∷ file (lit "b.go") (lit "2") ∷ file (lit "c.go") (lit "3") ∷ []

abbrev cached : Cached
cached = (lit "a.go", lit "1") ∷ (lit "b.go", lit "0") ∷ (lit "d.go", lit "4") ∷ []

compared : compare_files files cached ≡ record {
  added = lit "c.go" ∷ [];
  modified = lit "b.go" ∷ [];
  deleted = lit "d.go" ∷ [];
  unchanged = lit "a.go" ∷ [];
}
unfolding compare_files place lookup text_beq
compared = refl

compare_files_lem_example :
    ((compare_files files cached).added ≡ paths_of (is_new cached) files)
    × ((compare_files files cached).modified ≡ paths_of (is_changed cached) files)
    × ((compare_files files cached).unchanged ≡ paths_of (is_same cached) files)
    × ((compare_files files cached).deleted
        ≡ keep (λ p. not (contains p (map (λ f. f.rel_path) files))) (keys cached))
    × ((p : Text)
        → contains p (compare_files files cached).deleted
          ≡ (has p cached && not (contains p (map (λ f. f.rel_path) files))))
compare_files_lem_example = compare_files_lem files cached

paths_differ : HasDistinctKeys (λ f. f.rel_path) files
unfolding text_beq
paths_differ = all_differ-HasDistinctKeys (λ f. f.rel_path) files refl

abbrev content : DiskFile → Text
content f = elim f.hash [ none ↦ [] | some h ↦ h ]

contents_differ : HasDistinctKeys content files
unfolding text_beq
contents_differ = all_differ-HasDistinctKeys content files refl

apart :
    (l : List DiskFile)
    → HasDistinctKeys (λ f. f.rel_path) l
    → HasDistinctKeys content l
    → Pairwise IsApart l
apart [] p c = Pairwise.nil
apart (f ∷ l) (Pairwise.cons h p) (Pairwise.cons k c) =
    Pairwise.cons
      (λ g m. (
        h g m,
        λ t e d.
            let mine : content f ≡ t = rw e refl in
            let its : content g ≡ t = rw d refl in k g m (mine ∙ sym its),
      ))
      (apart l p c)

-- Of two files with one content, the table keeps one row: the other file is new again.
abbrev twins : List DiskFile
twins = file (lit "a.go") (lit "1") ∷ file (lit "b.go") (lit "1") ∷ []

twin_is_added : (compare_files twins (store_all false twins)).added ≡ lit "b.go" ∷ []
unfolding compare_files place lookup text_beq
twin_is_added = refl

compare_files-store_all_example :
    ((compare_files files (store_all false files)).added ≡ [])
    × ((compare_files files (store_all false files)).modified ≡ [])
    × ((compare_files files (store_all false files)).deleted ≡ [])
compare_files-store_all_example =
    compare_files-store_all false files files (Perm.refl files)
      (apart files paths_differ contents_differ)

-- Patterns that match nothing.
abbrev no_match : Patterns
no_match = record {
  frontend_path = λ s. false;
  backend_path = λ s. false;
  frontend_ext = λ s. false;
  backend_pkg = λ s. false;
  shared_pkg = λ s. false;
  frontend_pkg = λ s. false;
}
