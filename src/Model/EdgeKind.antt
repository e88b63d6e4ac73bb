-- ===== src/Model/EdgeKind.antt =====
-- internal/model/edgekind.go: the edge types of the graph and their names.
use code_iq.Base.{
  ℕ, ◌≡◌, refl, ap, ◌↔◌, Option, some, Bool, true, List, [], ◌∷◌, get_elem?, nat_beq, nat_beq_iff,
}
use code_iq.Base.Text.{Text, lit, text_beq}
use code_iq.Model.Names.{name_at, find_name, Agrees, find_name_sound}

pub data EdgeKind : Type 0 where
  depends_on imports extends implements calls injects exposes queries maps_to produces consumes
        publishes listens invokes_rmi exports_rmi reads_config migrates contains defines overrides
        connects_to triggers provisions sends_to receives_from protects renders references_table :
      EdgeKind

-- The integer that Go gives the constant.
abbrev pub ordinal : EdgeKind → ℕ
ordinal depends_on = 0
ordinal imports = 1
ordinal extends = 2
ordinal implements = 3
ordinal calls = 4
ordinal injects = 5
ordinal exposes = 6
ordinal queries = 7
ordinal maps_to = 8
ordinal produces = 9
ordinal consumes = 10
ordinal publishes = 11
ordinal listens = 12
ordinal invokes_rmi = 13
ordinal exports_rmi = 14
ordinal reads_config = 15
ordinal migrates = 16
ordinal contains = 17
ordinal defines = 18
ordinal overrides = 19
ordinal connects_to = 20
ordinal triggers = 21
ordinal provisions = 22
ordinal sends_to = 23
ordinal receives_from = 24
ordinal protects = 25
ordinal renders = 26
ordinal references_table = 27

abbrev edge_kind_names : List Text
edge_kind_names =
    lit "depends_on"
    ∷ lit "imports"
    ∷ lit "extends"
    ∷ lit "implements"
    ∷ lit "calls"
    ∷ lit "injects"
    ∷ lit "exposes"
    ∷ lit "queries"
    ∷ lit "maps_to"
    ∷ lit "produces"
    ∷ lit "consumes"
    ∷ lit "publishes"
    ∷ lit "listens"
    ∷ lit "invokes_rmi"
    ∷ lit "exports_rmi"
    ∷ lit "reads_config"
    ∷ lit "migrates"
    ∷ lit "contains"
    ∷ lit "defines"
    ∷ lit "overrides"
    ∷ lit "connects_to"
    ∷ lit "triggers"
    ∷ lit "provisions"
    ∷ lit "sends_to"
    ∷ lit "receives_from"
    ∷ lit "protects"
    ∷ lit "renders"
    ∷ lit "references_table"
    ∷ []

-- Every value, in the order of declaration.
abbrev pub all_edge_kinds : List EdgeKind
all_edge_kinds =
    depends_on ∷ imports ∷ extends ∷ implements ∷ calls ∷ injects ∷ exposes ∷ queries ∷ maps_to
    ∷ produces ∷ consumes ∷ publishes ∷ listens ∷ invokes_rmi ∷ exports_rmi ∷ reads_config
    ∷ migrates ∷ contains ∷ defines ∷ overrides ∷ connects_to ∷ triggers ∷ provisions ∷ sends_to
    ∷ receives_from ∷ protects ∷ renders ∷ references_table ∷ []

-- `String`. The branch for an integer that is no constant has no counterpart.
unfoldable pub string : EdgeKind → Text
string k = name_at edge_kind_names (ordinal k)

-- The first name that equals the text gives the value with its index.
unfoldable pub parse : Text → Option EdgeKind
parse s = find_name s edge_kind_names all_edge_kinds

parse-string : (k : EdgeKind) → parse (string k) ≡ some k
unfolding string parse find_name text_beq
parse-string depends_on = refl
parse-string _ = refl

names_agree : Agrees string edge_kind_names all_edge_kinds
unfolding string
names_agree = assumption refl

at_ordinal : (k : EdgeKind) → get_elem? all_edge_kinds (ordinal k) ≡ some k
at_ordinal depends_on = refl
at_ordinal _ = refl

pub ordinal_inj : (a b : EdgeKind) → ordinal a ≡ ordinal b → a ≡ b
ordinal_inj a b e = cc (at_ordinal a, at_ordinal b, ap (get_elem? all_edge_kinds) e)

-- `a == b`.
abbrev pub same : EdgeKind → EdgeKind → Bool
same a b = nat_beq (ordinal a) (ordinal b)

pub same_iff : (a b : EdgeKind) → (same a b ≡ true) ↔ (a ≡ b)
same_iff a b =
    (λ h. ordinal_inj a b ((nat_beq_iff _ _).0 h), λ e. (nat_beq_iff _ _).1 (ap ordinal e))

-- A text parses to a value exactly when it is the value's name.
pub parse_edge_kind_iff : (s : Text) (k : EdgeKind) → (parse s ≡ some k) ↔ (s ≡ string k)
unfolding parse
parse_edge_kind_iff s k = (
  find_name_sound string s edge_kind_names all_edge_kinds k names_agree,
  λ e. rw e (parse-string k),
)
