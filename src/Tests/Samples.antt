-- ===== src/Tests/Samples.antt =====
-- The inputs that the tests share.
use mathlib.Core.List.{Pairwise, mem-map_of_mem}
use code_iq.Base.{Bool, true, false, not, ◌&&◌, ◌≡◌, List, [], ◌∷◌, map, contains, arith}
use code_iq.Base.Members.{contains_iff_mem}
use code_iq.Base.Sort.{HasDistinctKeys}
use code_iq.Base.Text.{Text, text_eq, lit}
use code_iq.Model.NodeKind
use code_iq.Model.EdgeKind
use code_iq.Model.Confidence
use code_iq.Model.Node.{CodeNode, CodeEdge, new_code_node, new_code_edge, text}
use code_iq.Analyzer.Builder.{Emitted}
use code_iq.Topology.Connections.{Connection}
use code_iq.Topology.Services.{Summary}

abbrev pub user_class : CodeNode
user_class = new_code_node (lit "u") NodeKind.class (lit "User")

-- The same class, as a detector with more knowledge emits it.
abbrev pub user_resolved : CodeNode
user_resolved = record user_class {
  confidence = Confidence.resolved;
  fqn = lit "app.User";
  annotations = lit "Entity" ∷ [];
  properties = (lit "table", text (lit "users")) ∷ [];
}

abbrev pub order_class : CodeNode
order_class = new_code_node (lit "o") NodeKind.class (lit "Order")

abbrev pub order_uses_user : CodeEdge
order_uses_user = new_code_edge (lit "e1") EdgeKind.depends_on (lit "o") (lit "u")

abbrev pub dangling : CodeEdge
dangling = new_code_edge (lit "e2") EdgeKind.calls (lit "o") (lit "missing")

-- Another edge with the ID of the first.
abbrev pub order_calls_user : CodeEdge
order_calls_user = new_code_edge (lit "e1") EdgeKind.calls (lit "o") (lit "u")

abbrev pub first_result : Emitted
first_result = record {
  nodes = user_class ∷ order_class ∷ [];
  edges = order_uses_user ∷ dangling ∷ [];
}

abbrev pub second_result : Emitted
second_result = record { nodes = user_resolved ∷ []; edges = order_uses_user ∷ [] }

abbrev pub results : List Emitted
results = first_result ∷ second_result ∷ []

abbrev pub connection : Text → Text → Text → Connection
connection s t k = record { source = s; target = t; kind = k }

abbrev pub shop : List Connection
shop =
    connection (lit "web") (lit "api") (lit "calls")
    ∷ connection (lit "api") (lit "db") []
    ∷ connection (lit "web") (lit "auth") (lit "calls")
    ∷ connection (lit "auth") (lit "db") (lit "queries")
    ∷ []

abbrev pub summary : Text → Summary
summary s = record { name = s; build_tool = lit "maven"; endpoint_count = 0; entity_count = 0 }

abbrev pub services : List Summary
services =
    summary (lit "web") ∷ summary (lit "api") ∷ summary (lit "db") ∷ summary (lit "auth") ∷ []

module _ {A : Type 0} (key : A → Text) where
  abbrev pub all_differ : List A → Bool
  all_differ [] = true
  all_differ (x ∷ xs) = not (contains (key x) (map key xs)) && all_differ xs

  pub all_differ-HasDistinctKeys : (xs : List A) → all_differ xs ≡ true → HasDistinctKeys key xs
  all_differ-HasDistinctKeys [] h = Pairwise.nil
  all_differ-HasDistinctKeys (x ∷ xs) h =
      Pairwise.cons
        (λ b m e.
          let inside = (contains_iff_mem (key b) (map key xs)).1 (mem-map_of_mem key m) in
          let outside : contains (key x) (map key xs) ≡ false = ground arith in
          cc (e, inside, outside))
        (all_differ-HasDistinctKeys xs (ground arith))
