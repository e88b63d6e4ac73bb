-- ===== src/Analyzer/Layers.antt =====
-- internal/analyzer/layer_classifier.go: the layer of a node, by the first rule that applies.
-- The six regular expressions are compiled by Go's library: their matches are an argument.
pub mod Laws
use code_iq.Base.{
  Bool, true, false, ◌&&◌, ◌||◌, Option, none, some, List, [], ◌∷◌, ◌++◌, ◌==◌, map, contains,
  if◌then◌else◌,
}
use code_iq.Base.Text.{Text, text_eq, lit}
use code_iq.Base.Text.Search.{has_suffix, contains_text}
use code_iq.Base.Assoc.{lookup}
use code_iq.Model.NodeKind
use code_iq.Model.NodeKind.{NodeKind}
use code_iq.Model.Layer.{Layer, frontend, backend, infra, shared, unknown}
use code_iq.Model.Node.{CodeNode, Value, text, Properties}

-- `MatchString` of the six patterns.
pub record Patterns : Type 0 where
  pub frontend_path : Text → Bool
  pub backend_path : Text → Bool
  pub frontend_ext : Text → Bool
  pub backend_pkg : Text → Bool
  pub shared_pkg : Text → Bool
  pub frontend_pkg : Text → Bool

-- The four sets of kinds, by the layer of the set that a kind is in.
unfoldable pub layer_of_kind : NodeKind → Option Layer
layer_of_kind NodeKind.component = some frontend
layer_of_kind NodeKind.hook = some frontend
layer_of_kind NodeKind.guard = some backend
layer_of_kind NodeKind.middleware = some backend
layer_of_kind NodeKind.endpoint = some backend
layer_of_kind NodeKind.repository = some backend
layer_of_kind NodeKind.database_connection = some backend
layer_of_kind NodeKind.query = some backend
layer_of_kind NodeKind.entity = some backend
layer_of_kind NodeKind.migration = some backend
layer_of_kind NodeKind.service = some backend
layer_of_kind NodeKind.topic = some backend
layer_of_kind NodeKind.queue = some backend
layer_of_kind NodeKind.event = some backend
layer_of_kind NodeKind.message_queue = some backend
layer_of_kind NodeKind.rmi_interface = some backend
layer_of_kind NodeKind.websocket_endpoint = some backend
layer_of_kind NodeKind.infra_resource = some infra
layer_of_kind NodeKind.azure_resource = some infra
layer_of_kind NodeKind.azure_function = some infra
layer_of_kind NodeKind.sql_entity = some infra
layer_of_kind NodeKind.config_file = some shared
layer_of_kind NodeKind.config_key = some shared
layer_of_kind NodeKind.config_definition = some shared
layer_of_kind NodeKind.protocol_message = some shared
layer_of_kind _ = none

abbrev pub is_layer : Layer → Option Layer → Bool
is_layer frontend (some frontend) = true
is_layer backend (some backend) = true
is_layer infra (some infra) = true
is_layer shared (some shared) = true
is_layer _ _ = false

abbrev pub infra_langs : List Text
infra_langs = lit "terraform" ∷ lit "bicep" ∷ lit "dockerfile" ∷ []

abbrev pub frontend_frameworks : List Text
frontend_frameworks = lit "react" ∷ lit "vue" ∷ lit "angular" ∷ lit "svelte" ∷ lit "nextjs" ∷ []

abbrev pub backend_frameworks : List Text
backend_frameworks =
    lit "express"
    ∷ lit "nestjs"
    ∷ lit "flask"
    ∷ lit "django"
    ∷ lit "fastapi"
    ∷ lit "spring"
    ∷ lit "spring_boot"
    ∷ lit "spring_mvc"
    ∷ lit "spring_data"
    ∷ lit "spring_security"
    ∷ lit "gin"
    ∷ lit "echo"
    ∷ lit "fiber"
    ∷ lit "actix"
    ∷ lit "rocket"
    ∷ lit "axum"
    ∷ lit "asp.net"
    ∷ lit "koa"
    ∷ lit "hapi"
    ∷ lit "fastify"
    ∷ []

-- `n.Properties[key].(string)`, which is empty where it fails.
abbrev pub string_property : Text → Properties → Text
string_property key props = elim (lookup key props) [ some (text s) ↦ s | _ ↦ [] ]

abbrev pub non_empty : Text → Bool
non_empty [] = false
non_empty (c ∷ s) = true

-- Rule 7: files of a JVM language under the main source directory.
unfoldable pub is_jvm_main : Text → Bool
is_jvm_main path =
    (has_suffix (lit ".java") path
      || (has_suffix (lit ".kt") path || has_suffix (lit ".scala") path))
    && (contains_text (lit "src/main/java/") path || contains_text (lit "src/main/kotlin/") path)

module _ (re : Patterns) where
  unfoldable pub classify_one : CodeNode → Layer
  unfolding layer_of_kind is_jvm_main
  classify_one n =
      let kind = layer_of_kind n.kind in
      let language = string_property (lit "language") n.properties in
      let framework = string_property (lit "framework") n.properties in
      let combined = n.file_path ++ lit "|" ++ n.id in
      if is_layer frontend kind
      then frontend
      else if is_layer backend kind
      then backend
      else if is_layer infra kind
      then infra
      else if non_empty language && contains language infra_langs
      then infra
      else if non_empty n.file_path && re.frontend_ext n.file_path
      then frontend
      else if non_empty n.file_path && re.frontend_path n.file_path
      then frontend
      else if non_empty n.file_path && re.backend_path n.file_path
      then backend
      else if non_empty framework && contains framework frontend_frameworks
      then frontend
      else if non_empty framework && contains framework backend_frameworks
      then backend
      else if is_layer shared kind
      then shared
      else if re.frontend_pkg combined
      then frontend
      else if re.backend_pkg combined
      then backend
      else if re.shared_pkg combined
      then shared
      else if is_jvm_main n.file_path
      then backend
      else unknown

  -- `Classify` writes the layer of every node.
  unfoldable pub classify : List CodeNode → List CodeNode
  unfolding classify_one
  classify = map (λ (n : CodeNode). record n { layer = classify_one n })
