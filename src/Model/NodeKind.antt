-- ===== src/Model/NodeKind.antt =====
-- internal/model/nodekind.go: the node types of the graph and their names.
use code_iq.Base.{
  ℕ, ◌≡◌, refl, ap, ◌↔◌, Option, some, Bool, true, List, [], ◌∷◌, get_elem?, nat_beq, nat_beq_iff,
}
use code_iq.Base.Text.{Text, lit, text_beq}
use code_iq.Model.Names.{name_at, find_name, Agrees, find_name_sound}

pub data NodeKind : Type 0 where
  module_node package_node class method endpoint entity repository query migration topic queue event
        rmi_interface config_file config_key websocket_endpoint interface abstract_class enum
        annotation_type protocol_message config_definition database_connection azure_resource
        azure_function message_queue infra_resource component guard middleware hook service external
        sql_entity :
      NodeKind

-- The integer that Go gives the constant.
abbrev pub ordinal : NodeKind → ℕ
ordinal module_node = 0
ordinal package_node = 1
ordinal class = 2
ordinal method = 3
ordinal endpoint = 4
ordinal entity = 5
ordinal repository = 6
ordinal query = 7
ordinal migration = 8
ordinal topic = 9
ordinal queue = 10
ordinal event = 11
ordinal rmi_interface = 12
ordinal config_file = 13
ordinal config_key = 14
ordinal websocket_endpoint = 15
ordinal interface = 16
ordinal abstract_class = 17
ordinal enum = 18
ordinal annotation_type = 19
ordinal protocol_message = 20
ordinal config_definition = 21
ordinal database_connection = 22
ordinal azure_resource = 23
ordinal azure_function = 24
ordinal message_queue = 25
ordinal infra_resource = 26
ordinal component = 27
ordinal guard = 28
ordinal middleware = 29
ordinal hook = 30
ordinal service = 31
ordinal external = 32
ordinal sql_entity = 33

abbrev node_kind_names : List Text
node_kind_names =
    lit "module"
    ∷ lit "package"
    ∷ lit "class"
    ∷ lit "method"
    ∷ lit "endpoint"
    ∷ lit "entity"
    ∷ lit "repository"
    ∷ lit "query"
    ∷ lit "migration"
    ∷ lit "topic"
    ∷ lit "queue"
    ∷ lit "event"
    ∷ lit "rmi_interface"
    ∷ lit "config_file"
    ∷ lit "config_key"
    ∷ lit "websocket_endpoint"
    ∷ lit "interface"
    ∷ lit "abstract_class"
    ∷ lit "enum"
    ∷ lit "annotation_type"
    ∷ lit "protocol_message"
    ∷ lit "config_definition"
    ∷ lit "database_connection"
    ∷ lit "azure_resource"
    ∷ lit "azure_function"
    ∷ lit "message_queue"
    ∷ lit "infra_resource"
    ∷ lit "component"
    ∷ lit "guard"
    ∷ lit "middleware"
    ∷ lit "hook"
    ∷ lit "service"
    ∷ lit "external"
    ∷ lit "sql_entity"
    ∷ []

-- Every value, in the order of declaration.
abbrev pub all_node_kinds : List NodeKind
all_node_kinds =
    module_node ∷ package_node ∷ class ∷ method ∷ endpoint ∷ entity ∷ repository ∷ query ∷ migration
    ∷ topic ∷ queue ∷ event ∷ rmi_interface ∷ config_file ∷ config_key ∷ websocket_endpoint
    ∷ interface ∷ abstract_class ∷ enum ∷ annotation_type ∷ protocol_message ∷ config_definition
    ∷ database_connection ∷ azure_resource ∷ azure_function ∷ message_queue ∷ infra_resource
    ∷ component ∷ guard ∷ middleware ∷ hook ∷ service ∷ external ∷ sql_entity ∷ []

-- `String`. The branch for an integer that is no constant has no counterpart.
unfoldable pub string : NodeKind → Text
string k = name_at node_kind_names (ordinal k)

-- The first name that equals the text gives the value with its index.
unfoldable pub parse : Text → Option NodeKind
parse s = find_name s node_kind_names all_node_kinds

parse-string : (k : NodeKind) → parse (string k) ≡ some k
unfolding string parse find_name text_beq
parse-string module_node = refl
parse-string _ = refl

names_agree : Agrees string node_kind_names all_node_kinds
unfolding string
names_agree = assumption refl

at_ordinal : (k : NodeKind) → get_elem? all_node_kinds (ordinal k) ≡ some k
at_ordinal module_node = refl
at_ordinal _ = refl

pub ordinal_inj : (a b : NodeKind) → ordinal a ≡ ordinal b → a ≡ b
ordinal_inj a b e = cc (at_ordinal a, at_ordinal b, ap (get_elem? all_node_kinds) e)

-- `a == b`.
abbrev pub same : NodeKind → NodeKind → Bool
same a b = nat_beq (ordinal a) (ordinal b)

pub same_iff : (a b : NodeKind) → (same a b ≡ true) ↔ (a ≡ b)
same_iff a b =
    (λ h. ordinal_inj a b ((nat_beq_iff _ _).0 h), λ e. (nat_beq_iff _ _).1 (ap ordinal e))

-- A text parses to a value exactly when it is the value's name.
pub parse_node_kind_iff : (s : Text) (k : NodeKind) → (parse s ≡ some k) ↔ (s ≡ string k)
unfolding parse
parse_node_kind_iff s k = (
  find_name_sound string s node_kind_names all_node_kinds k names_agree,
  λ e. rw e (parse-string k),
)
