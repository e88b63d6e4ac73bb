-- ===== src/Model/Layer.antt =====
-- internal/model/layer.go: the five layers and their names.
use code_iq.Base.{ℕ, ◌≡◌, refl, ◌↔◌, Option, some, List, [], ◌∷◌}
use code_iq.Base.Text.{Text, lit, text_beq}
use code_iq.Model.Names.{name_at, find_name, Agrees, find_name_sound}

pub data Layer : Type 0 where
  frontend backend infra shared unknown : Layer

-- The integer that Go gives the constant.
abbrev pub ordinal : Layer → ℕ
ordinal frontend = 0
ordinal backend = 1
ordinal infra = 2
ordinal shared = 3
ordinal unknown = 4

abbrev layer_names : List Text
layer_names = lit "frontend" ∷ lit "backend" ∷ lit "infra" ∷ lit "shared" ∷ lit "unknown" ∷ []

-- Every value, in the order of declaration.
abbrev pub all_layers : List Layer
all_layers = frontend ∷ backend ∷ infra ∷ shared ∷ unknown ∷ []

-- `String`. The branch for an integer that is no constant has no counterpart.
unfoldable pub string : Layer → Text
string k = name_at layer_names (ordinal k)

-- The first name that equals the text gives the value with its index.
unfoldable pub parse : Text → Option Layer
parse s = find_name s layer_names all_layers

parse-string : (k : Layer) → parse (string k) ≡ some k
unfolding string parse find_name text_beq
parse-string frontend = refl
parse-string _ = refl

names_agree : Agrees string layer_names all_layers
unfolding string
names_agree = assumption refl

-- A text parses to a value exactly when it is the value's name.
pub parse_layer_iff : (s : Text) (k : Layer) → (parse s ≡ some k) ↔ (s ≡ string k)
unfolding parse
parse_layer_iff s k =
    (find_name_sound string s layer_names all_layers k names_agree, λ e. rw e (parse-string k))
