-- ===== src/Topology/Connections.antt =====
-- The cross-service connections, from the rows of their query.
pub mod Dedup
use code_iq.Base.{List, [], ◌∷◌, ◌++◌, contains, if◌then◌else◌}
use code_iq.Base.Text.{Text, text_eq, lit, to_lower}
use code_iq.Model.Node.{Value, text}

-- One row: the columns `source`, `target` and `kind`, of any type.
pub record Row : Type 0 where
  pub source : Value
  pub target : Value
  pub kind : Value

pub record Connection : Type 0 where
  pub source : Text
  pub target : Text
  pub kind : Text

-- `stringOr(v, fallback)`.
abbrev pub string_or : Value → Text → Text
string_or (text s) fallback = s
string_or _ fallback = fallback

abbrev pub connection_of : Row → Connection
connection_of r = record {
  source = string_or r.source [];
  target = string_or r.target [];
  kind = to_lower (string_or r.kind []);
}

-- The key under which connections are deduplicated.
unfoldable pub connection_key : Connection → Text
connection_key c = c.source ++ lit "->" ++ c.target ++ lit ":" ++ c.kind

-- The loop of `crossServiceConnections`, with the keys seen.
unfoldable pub collect : List Text → List Row → List Connection
collect seen [] = []
collect seen (r ∷ rs) =
    let c = connection_of r in
    let old = collect seen rs in
    let new = c ∷ collect (connection_key c ∷ seen) rs in
    if contains (connection_key c) seen then old else new

unfoldable pub cross_service_connections : List Row → List Connection
unfolding collect
cross_service_connections = collect []
