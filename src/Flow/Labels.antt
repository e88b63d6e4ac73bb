-- ===== src/Flow/Labels.antt =====
-- internal/flow/renderer.go: shapes, arrows, styles and the escaping of labels.
pub mod Escape
pub mod Quoted
use mathlib.Core.List.{foldl}
use code_iq.Base.{
  ltb, ℕ, Bool, true, false, not, ◌&&◌, ◌||◌, Option, none, some, List, [], ◌∷◌, ◌++◌, ◌==◌, nat_eq,
  leb, map, flat, is_nonempty, length, if◌then◌else◌,
}
use code_iq.Base.Text.{Text, text_eq, text_lt, lit, to_lower, trim_space, has_prefix}
use code_iq.Base.Text.Search.{replace_byte, drop}
use code_iq.Base.Text.Decimal.{show}
use code_iq.Base.Assoc.{lookup}
use code_iq.Base.Sort.{sort_by}
use code_iq.Base.Sort.With.{sort_with}
use code_iq.Flow.Models.{FlowNode, FlowEdge, Subgraph, Diagram, valid_edges}
use code_iq.Flow.Ci.{edge_before}

abbrev pub newline : Text
newline = 10 ∷ []

abbrev pub quote : Text
quote = 34 ∷ []

-- The opening and closing brackets of a kind.
abbrev pub shape_brackets : List (Text × (Text × Text))
shape_brackets =
    (lit "trigger", (lit "([", lit "])"))
    ∷ (lit "pipeline", (lit "[", lit "]"))
    ∷ (lit "job", (lit "[", lit "]"))
    ∷ (lit "endpoint", (lit "{{", lit "}}"))
    ∷ (lit "entity", (lit "[(", lit ")]"))
    ∷ (lit "database", (lit "[(", lit ")]"))
    ∷ (lit "guard", (lit ">", lit "]"))
    ∷ (lit "middleware", (lit ">", lit "]"))
    ∷ (lit "component", (lit "([", lit "])"))
    ∷ (lit "messaging", (lit "[/", 92 ∷ 93 ∷ []))
    ∷ (lit "k8s", (lit "[", lit "]"))
    ∷ (lit "docker", (lit "[", lit "]"))
    ∷ (lit "terraform", (lit "[", lit "]"))
    ∷ (lit "infra", (lit "[", lit "]"))
    ∷ (lit "code", (lit "[", lit "]"))
    ∷ (lit "service", (lit "[", lit "]"))
    ∷ []

abbrev pub edge_arrow : List (Text × Text)
edge_arrow = (lit "solid", lit "-->") ∷ (lit "dotted", lit "-.->") ∷ (lit "thick", lit "==>") ∷ []

abbrev pub style_suffix : List (Text × Text)
style_suffix =
    (lit "success", lit ":::success")
    ∷ (lit "warning", lit ":::warning")
    ∷ (lit "danger", lit ":::danger")
    ∷ (lit "default", [])
    ∷ []

-- `\w`
abbrev pub is_word : ℕ → Bool
is_word c =
    (leb b'A' c && leb c b'Z')
    || (leb b'a' c && leb c b'z')
    || (leb b'0' c && leb c b'9')
    || c == b'_'

-- A byte of a character's UTF-8 that is not its first.
abbrev pub is_continuation : ℕ → Bool
is_continuation c = leb 128 c && ltb c 192

-- Every other character is one underscore, however many bytes it has.
unfoldable pub sanitize_id : Text → Text
sanitize_id = flat (λ c. if is_word c then c ∷ [] else if is_continuation c then [] else b'_' ∷ [])

-- `&#NN;`
abbrev pub entity : ℕ → Text
entity c = lit "&#" ++ show c ++ lit ";"

-- `#` first, then `"|[]{}()<>`, in the order of the calls.
abbrev pub label_bytes : List ℕ
label_bytes = 35 ∷ 34 ∷ 124 ∷ 91 ∷ 93 ∷ 123 ∷ 125 ∷ 40 ∷ 41 ∷ 60 ∷ 62 ∷ []

-- One `strings.ReplaceAll` after the other.
abbrev pub replace_each : (ℕ → Text) → List ℕ → Text → Text
replace_each by ds s = foldl (λ t d. replace_byte d (by d) t) s ds

unfoldable pub escape_label : Text → Text
unfolding replace_byte show
escape_label = replace_each entity label_bytes

abbrev pub backslashed : ℕ → Text
backslashed c = 92 ∷ c ∷ []

unfoldable pub escape_dot_label : Text → Text
unfolding replace_byte
escape_dot_label = replace_each backslashed (92 ∷ 34 ∷ [])

abbrev pub dot_style_attr : Text → Text
dot_style_attr style =
    if style == lit "success"
    then lit ", style=filled, fillcolor=\"#d4edda\", color=\"#28a745\""
    else if style == lit "warning"
    then lit ", style=filled, fillcolor=\"#fff3cd\", color=\"#ffc107\""
    else if style == lit "danger"
    then lit ", style=filled, fillcolor=\"#f8d7da\", color=\"#dc3545\""
    else []

abbrev pub dot_edge_style : Text → Text
dot_edge_style style =
    if style == lit "dotted"
    then lit ", style=dotted"
    else if style == lit "thick"
    then lit ", penwidth=2"
    else []

abbrev pub trim_prefix : Text → Text → Text
trim_prefix s prefix = if has_prefix s prefix then drop (length prefix) s else s

abbrev pub or_default : {A : Type 0} → A → Option A → A
or_default a none = a
or_default a (some b) = b
