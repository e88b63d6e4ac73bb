-- ===== src/Tests/Flow.antt =====
-- The diagrams of a small graph.
use code_iq.Base.{
  suc, ℕ, ◌≡◌, refl, arith, some, true, false, [], ◌∷◌, ◌++◌, flat, keep, contains, nat_eq,
}
use code_iq.Base.Text.{Text, text_eq, text_beq, text_lt, has_prefix, to_lower, lit}
use code_iq.Base.Text.Search.{contains_text, replace_byte}
use code_iq.Base.Text.Decimal.{show, count_up}
use code_iq.Base.Sort.{sort_by}
use code_iq.Model.NodeKind
use code_iq.Model.EdgeKind
use code_iq.Model.Node.{Value, new_code_node, new_code_edge}
use code_iq.Flow.Models.{joins, node_ids, all_nodes, valid_edges}
use code_iq.Flow.Views.{GraphView, sort_by_id}
use code_iq.Flow.Overview.{build_overview}
use code_iq.Flow.Ci.{job_edges, build_ci_view}
use code_iq.Flow.Deploy.{is_infra, in_deploy_group, groups_of, prefixed, build_deploy_view}
use code_iq.Flow.Runtime.{build_runtime_view}
use code_iq.Flow.Auth.{build_auth_view}
use code_iq.Flow.Edges.Drawn.{views-valid}
use code_iq.Flow.Edges.Ci.{build_ci_view-valid}
use code_iq.Flow.Edges.Deploy.{Fits}
use code_iq.Flow.Edges.Deployed.{build_deploy_view-valid}
use code_iq.Flow.Engine.{Store, loaded, failed, generate, generate_all, generate_from_snapshot}
use code_iq.Flow.Engine.Dispatch.{found, pick, generate_lem}
use code_iq.Flow.Labels.{entity, label_bytes, escape_label, escape_dot_label}
use code_iq.Flow.Labels.Escape.{replaced, breaking_bytes, escape_label_lem}
use code_iq.Flow.Labels.Quoted.{read_quoted, read_quoted-escape_dot_label}

abbrev sample : GraphView
sample = record {
  nodes =
      new_code_node (lit "ep") NodeKind.endpoint (lit "GET /")
      ∷ new_code_node (lit "g") NodeKind.guard (lit "Login")
      ∷ new_code_node (lit "k8s:web") NodeKind.infra_resource (lit "web")
      ∷ new_code_node (lit "tf:db") NodeKind.infra_resource (lit "db")
      ∷ new_code_node (lit "gha:ci") NodeKind.module_node (lit "CI")
      ∷ new_code_node (lit "gha:ci:job:build") NodeKind.method (lit "build")
      ∷ new_code_node (lit "gha:push") NodeKind.config_key (lit "push")
      ∷ [];
  edges =
      new_code_edge (lit "e1") EdgeKind.protects (lit "g") (lit "ep")
      ∷ new_code_edge (lit "e2") EdgeKind.connects_to (lit "k8s:web") (lit "tf:db")
      ∷ [];
}

abbrev no_text : Value → Text
no_text v = lit "?"

views-valid_example :
    (valid_edges (build_overview sample) ≡ (build_overview sample).edges)
    × (valid_edges (build_runtime_view sample) ≡ (build_runtime_view sample).edges)
    × (valid_edges (build_auth_view no_text sample) ≡ (build_auth_view no_text sample).edges)
views-valid_example = views-valid no_text sample

build_ci_view-valid_example :
    valid_edges (build_ci_view sample)
    ≡ keep (joins (node_ids (all_nodes (build_ci_view sample)))) (job_edges sample.edges)
build_ci_view-valid_example = build_ci_view-valid sample

sample-Fits : Fits (prefixed (groups_of (sort_by_id (keep is_infra sample.nodes))))
unfolding groups_of in_deploy_group contains_text has_prefix to_lower text_beq text_lt sort_by
sample-Fits = (omega arith, (omega arith, (omega arith, (omega arith, (omega arith, tt)))))

build_deploy_view-valid_example :
    valid_edges (build_deploy_view sample) ≡ (build_deploy_view sample).edges
build_deploy_view-valid_example = build_deploy_view-valid sample sample-Fits

-- A world that counts the calls; the second loader fails.
abbrev store : Store ℕ Text
store = record {
  load_all_nodes = λ n. (loaded sample.nodes, suc n);
  load_all_edges = λ n. (failed (lit "closed"), suc n);
}

generate_lem_example :
    (found (generate no_text store 0 (lit "ci")) ≡ pick (lit "ci") (generate_all no_text store 0))
    × ((snap : GraphView) → (generate_from_snapshot no_text (lit "ci") snap).view ≡ lit "ci")
unfolding generate_all text_beq
generate_lem_example = generate_lem no_text store 0 (lit "ci")

escape_label_lem_example :
    (escape_label (lit "f(x)") ≡ flat (replaced entity label_bytes) (lit "f(x)"))
    × ((d : ℕ) → contains d breaking_bytes ≡ true → contains d (escape_label (lit "f(x)")) ≡ false)
escape_label_lem_example = escape_label_lem (lit "f(x)")

escaped : escape_label (lit "f(x)") ≡ lit "f&#40;x&#41;"
unfolding escape_label replace_byte show count_up
escaped = refl

read_quoted-escape_dot_label_example :
    read_quoted (escape_dot_label (92 ∷ 34 ∷ []) ++ 34 ∷ lit "];") ≡ some (92 ∷ 34 ∷ [], lit "];")
read_quoted-escape_dot_label_example = read_quoted-escape_dot_label (92 ∷ 34 ∷ []) (lit "];")
