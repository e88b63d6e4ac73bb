-- ===== src/Tests/Statistics.antt =====
-- The statistics of a small graph.
use mathlib.Core.List.{Perm}
use mathlib.Core.List.Perm
use code_iq.Base.{
  ℕ, suc, ◌+◌, ◌≡◌, refl, none, List, [], ◌∷◌, keep, length, sum, false, not, any, if◌then◌else◌,
}
use code_iq.Base.Text.{Text, text_eq, lit, text_beq}
use code_iq.Base.Text.Search.{is_blank}
use code_iq.Base.Assoc.{lookup, insert, has, values}
use code_iq.Base.Sort.With.{sort_with, IsOrdered}
use code_iq.Model.NodeKind
use code_iq.Model.NodeKind.{NodeKind}
use code_iq.Model.Node.{CodeNode, CodeEdge, new_code_node, text}
use code_iq.Analyzer.Layers.{string_property}
use code_iq.Stats.Ordered.{ordered, entries_of, put, put_all}
use code_iq.Stats.Ordered.Refines.{insert_all, ordered_refines}
use code_iq.Stats.Ranked.{by_count, sort_by_value_desc, sort_by_value_desc_lem}
use code_iq.Stats.Names.{extract_language}
use code_iq.Stats.Categories.{compute_languages, compute_frameworks, compute_connections}
use code_iq.Stats.Totals.{connection_number, compute_connections-totals, compute_languages-totals}
use code_iq.Stats.Lazy.{Loaded, Request, ask_stats, ask_category, ask_err, new_service, call_all}
use code_iq.Stats.Lazy.Calls.{loads, answers_from, call_all-refines}
use code_iq.Tests.Samples.{user_class, order_uses_user}

abbrev java_class : CodeNode
java_class = record user_class { file_path = lit "src/User.java" }

abbrev get_users : CodeNode
get_users = record (new_code_node (lit "g") NodeKind.endpoint (lit "GET /users")) {
  file_path = lit "src/users.ts";
  properties = (lit "http_method", text (lit "get")) ∷ (lit "framework", text (lit "express")) ∷ [];
}

abbrev users_rpc : CodeNode
users_rpc = record (new_code_node (lit "r") NodeKind.endpoint (lit "Users.List")) {
  properties = (lit "protocol", text (lit "gRPC")) ∷ [];
}

abbrev sample_nodes : List CodeNode
sample_nodes = java_class ∷ get_users ∷ users_rpc ∷ []

abbrev sample_edges : List CodeEdge
sample_edges = order_uses_user ∷ []

abbrev puts : List (Text × ℕ)
puts = (lit "b", 1) ∷ (lit "a", 2) ∷ (lit "b", 3) ∷ []

ordered_refines_example : entries_of (ordered puts) ≡ insert_all puts []
ordered_refines_example = ordered_refines puts

later_value : entries_of (ordered puts) ≡ (lit "b", 3) ∷ (lit "a", 2) ∷ []
unfolding put_all put insert has lookup text_beq
later_value = refl

abbrev visited : List (Text × ℕ)
visited = (lit "go", 2) ∷ (lit "c", 2) ∷ []

abbrev rows : List (Text × ℕ)
rows = (lit "c", 2) ∷ (lit "go", 2) ∷ []

sort_by_value_desc_lem_example :
    (entries_of (sort_by_value_desc visited) ≡ sort_with by_count rows)
    × Perm (entries_of (sort_by_value_desc visited)) rows
    × IsOrdered by_count (entries_of (sort_by_value_desc visited))
    × (sort_by_value_desc visited ≡ sort_by_value_desc rows)
unfolding has lookup text_beq
sort_by_value_desc_lem_example =
    sort_by_value_desc_lem rows visited (refl, (refl, tt)) (Perm.swap (lit "c", 2) (lit "go", 2) [])

compute_connections-totals_example :
    (connection_number (lit "rest") (compute_connections sample_nodes sample_edges)
        + connection_number (lit "grpc") (compute_connections sample_nodes sample_edges)
      ≡ length (keep (λ n. NodeKind.same n.kind NodeKind.endpoint) sample_nodes))
    × (connection_number (lit "websocket") (compute_connections sample_nodes sample_edges)
        ≡ length (keep (λ n. NodeKind.same n.kind NodeKind.websocket_endpoint) sample_nodes))
compute_connections-totals_example = compute_connections-totals sample_nodes sample_edges

compute_languages-totals_example :
    (sum (values (entries_of (compute_languages sample_nodes)))
      ≡ length (keep (λ n. not (is_blank (extract_language n))) sample_nodes))
    × (sum (values (entries_of (compute_frameworks sample_nodes)))
        ≡ length (
            keep
              (λ n. not (is_blank (string_property (lit "framework") n.properties)))
              sample_nodes))
compute_languages-totals_example = compute_languages-totals sample_nodes

-- A loader that counts its calls.
abbrev counting_loader : ℕ → Loaded Text × ℕ
counting_loader n = (record { nodes = sample_nodes; edges = sample_edges; err = none }, suc n)

abbrev requests : List Request
requests = ask_err ∷ ask_stats ∷ ask_category (lit "infra") ∷ []

call_all-refines_example :
    ((call_all counting_loader requests (new_service counting_loader 0)).0
      ≡ answers_from counting_loader (counting_loader 0).0 false requests)
    × ((call_all counting_loader requests (new_service counting_loader 0)).1.world
        ≡ (if any loads requests then (counting_loader 0).1 else 0))
call_all-refines_example = call_all-refines counting_loader requests 0
