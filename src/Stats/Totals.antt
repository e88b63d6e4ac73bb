-- ===== src/Stats/Totals.antt =====
-- What the statistics count, and how the categories relate to the whole.
use mathlib.Core.List.{foldr}
use mathlib.Core.List.Perm
use code_iq.Base.{
  ℕ, ◌+◌, ◌≡◌, refl, sym, ap, ◌∙◌, ◌⊎◌, inl, inr, Bool, true, false, not, Option, some, List, [],
  ◌∷◌, keep, keep_ext, length, sum, arith, Bool-cases,
}
use code_iq.Base.Text.{Text, text_eq, text_beq, lit, to_lower}
use code_iq.Base.Text.Search.{is_blank}
use code_iq.Base.Assoc.{values, lookup, insert, has}
use code_iq.Base.Counts.{count_under, sum-count_under, is_counted, count_under-IsDistinct}
use code_iq.Model.NodeKind
use code_iq.Model.NodeKind.{NodeKind}
use code_iq.Model.Node.{CodeNode, CodeEdge}
use code_iq.Analyzer.Layers.{string_property}
use code_iq.Stats.Ordered.{OrderedMap, put, put_all, entries_of}
use code_iq.Stats.Ranked.{sort_by_value_desc, sort_by_value_desc_lem}
use code_iq.Stats.Names.{extract_language}
use code_iq.Base.Assoc.Distinct.{IsDistinct}
use code_iq.Stats.Categories.{
  RestStat, rest_total, Stat, number, rest, is_grpc, rest_of, is_grpc_endpoint, unless_blank,
  unless_empty, framework_of, compute_languages, compute_frameworks, compute_connections,
  compute_stats, compute_category,
}

-- A category by itself, under its name in any case, is the category of the whole.
pub compute_category-compute_stats :
    (nodes : List CodeNode) (edges : List CodeEdge) (category : Text)
    → compute_category nodes edges category
      ≡ lookup (to_lower category) (compute_stats nodes edges).values
unfolding compute_category compute_stats put_all put insert has lookup text_beq
compute_category-compute_stats nodes edges category = refl

-- Whether an element of that kind is counted as REST, and whether as gRPC.
rest_or_grpc :
    (k : NodeKind) (n : CodeNode)
    → (NodeKind.same k NodeKind.endpoint ≡ false)
        × (is_counted (rest_of k n) ≡ false)
        × (is_grpc_endpoint k n ≡ false)
      ⊎ (NodeKind.same k NodeKind.endpoint ≡ true)
        × (is_counted (rest_of k n) ≡ not (is_grpc_endpoint k n))
unfolding rest_of is_grpc_endpoint
rest_or_grpc NodeKind.endpoint n = elim (Bool-cases (is_grpc n)) [
  | inl here ↦ inr (refl, rw here refl)
  | inr here ↦ inr (refl, rw here refl)
]
rest_or_grpc _ n = inl (refl, refl, refl)

endpoint_split :
    (nodes : List CodeNode)
    → length (keep (λ n. is_counted (rest_of n.kind n)) nodes)
        + length (keep (λ n. is_grpc_endpoint n.kind n) nodes)
      ≡ length (keep (λ n. NodeKind.same n.kind NodeKind.endpoint) nodes)
endpoint_split [] = omega arith
endpoint_split (n ∷ nodes) = elim (rest_or_grpc n.kind n) [
  | inl (other, no_rest, no_grpc) ↦ rw (other, no_rest, no_grpc) (endpoint_split nodes)
  | inr (endpoint, split) ↦
      rw (endpoint, split)
        (elim (Bool-cases (is_grpc_endpoint n.kind n)) [
          | inl grpc ↦ rw grpc (omega (arith, endpoint_split nodes))
          | inr grpc ↦ rw grpc (omega (arith, endpoint_split nodes))
        ])
]

-- The numbers that a caller reads from the answer of `computeConnections`.
abbrev pub rest_total_in : Option RestStat → ℕ
rest_total_in (some (rest_total n)) = n
rest_total_in _ = 0

abbrev pub number_in : Option Stat → ℕ
number_in (some (number n)) = n
number_in (some (rest m)) = rest_total_in (lookup (lit "total") m.values)
number_in _ = 0

abbrev pub connection_number : Text → OrderedMap Stat → ℕ
connection_number name m = number_in (lookup name m.values)

-- The totals of REST and gRPC add up to the nodes that are endpoints, and the count of
-- websockets is that of the websocket endpoints.
pub compute_connections-totals :
    (nodes : List CodeNode) (edges : List CodeEdge)
    → (connection_number (lit "rest") (compute_connections nodes edges)
          + connection_number (lit "grpc") (compute_connections nodes edges)
        ≡ length (keep (λ n. NodeKind.same n.kind NodeKind.endpoint) nodes))
      × (connection_number (lit "websocket") (compute_connections nodes edges)
          ≡ length (keep (λ n. NodeKind.same n.kind NodeKind.websocket_endpoint) nodes))
unfolding compute_connections put_all put insert has lookup text_beq
compute_connections-totals nodes edges =
    (omega (arith, sum-count_under (λ n. rest_of n.kind n) nodes, endpoint_split nodes), refl)

foldr-values :
    (rows : List (Text × ℕ)) → foldr (λ (x : Text × ℕ) (s : ℕ). x.1 + s) 0 rows ≡ sum (values rows)
foldr-values [] = refl
foldr-values ((t, n) ∷ rows) = omega (arith, foldr-values rows)

nat_set : IsSet ℕ
nat_set = hlevel

sum-sorted :
    (rows : List (Text × ℕ))
    → IsDistinct rows
    → sum (values (entries_of (sort_by_value_desc rows))) ≡ sum (values rows)
sum-sorted rows d =
    let (_, same, _, _) = sort_by_value_desc_lem rows rows d Perm.rfl in
    sym (foldr-values (entries_of (sort_by_value_desc rows)))
    ∙ (Perm.foldr-eq nat_set (λ (x : Text × ℕ) (s : ℕ). x.1 + s) (λ a b x. omega arith) same 0
        ∙ foldr-values rows)

-- The counts that `sortByValueDesc` writes out add up to the elements that the loop counted.
sum-counted :
    {A : Type 0} (name_of : A → Option Text) (test : A → Bool)
    → ((x : A) → is_counted (name_of x) ≡ test x)
    → (xs : List A)
    → sum (values (entries_of (sort_by_value_desc (count_under name_of xs))))
      ≡ length (keep test xs)
sum-counted name_of test same xs =
    sum-sorted (count_under name_of xs) (count_under-IsDistinct name_of xs)
    ∙ (sum-count_under name_of xs ∙ ap length (keep_ext (λ x. is_counted (name_of x)) test same xs))

is_counted-blank : (s : Text) → is_counted (unless_blank s) ≡ not (is_blank s)
is_counted-blank s = ground arith

-- The counts of the languages add up to the nodes whose language is not blank, and those of the
-- frameworks to the nodes whose framework is not blank.
pub compute_languages-totals :
    (nodes : List CodeNode)
    → (sum (values (entries_of (compute_languages nodes)))
        ≡ length (keep (λ n. not (is_blank (extract_language n))) nodes))
      × (sum (values (entries_of (compute_frameworks nodes)))
          ≡ length
              (keep (λ n. not (is_blank (string_property (lit "framework") n.properties))) nodes))
unfolding compute_languages compute_frameworks is_blank
compute_languages-totals nodes = (
  sum-counted (λ n. unless_blank (extract_language n)) _
      (λ n. is_counted-blank (extract_language n)) nodes,
  sum-counted (λ n. unless_empty (framework_of n)) _ (λ n. ground arith) nodes,
)
