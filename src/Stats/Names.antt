-- ===== src/Stats/Names.antt =====
-- The names under which internal/query/stats.go counts a node.
use code_iq.Base.{not, ◌||◌, Option, none, some, List, [], ◌∷◌, nat_eq, contains, if◌then◌else◌}
use code_iq.Base.Text.{Text, text_eq, lit, to_lower, trim_space}
use code_iq.Base.Text.Search.{is_blank, contains_text, after_last, cut_byte, after_text}
use code_iq.Base.Assoc.{lookup}
use code_iq.Model.Node.{CodeNode}
use code_iq.Analyzer.Layers.{string_property}

abbrev lang_ext : Text → List Text → Text × List Text
lang_ext name exts = (name, exts)

-- The cases of `extByLang`.
abbrev pub language_extensions : List (Text × List Text)
language_extensions =
    lang_ext (lit "java") (lit "java" ∷ [])
    ∷ lang_ext (lit "kotlin") (lit "kt" ∷ lit "kts" ∷ [])
    ∷ lang_ext (lit "python") (lit "py" ∷ [])
    ∷ lang_ext (lit "javascript") (lit "js" ∷ lit "mjs" ∷ lit "cjs" ∷ [])
    ∷ lang_ext (lit "typescript") (lit "ts" ∷ lit "tsx" ∷ [])
    ∷ lang_ext (lit "go") (lit "go" ∷ [])
    ∷ lang_ext (lit "rust") (lit "rs" ∷ [])
    ∷ lang_ext (lit "csharp") (lit "cs" ∷ [])
    ∷ lang_ext (lit "ruby") (lit "rb" ∷ [])
    ∷ lang_ext (lit "scala") (lit "scala" ∷ [])
    ∷ lang_ext (lit "cpp") (lit "cpp" ∷ lit "cc" ∷ lit "cxx" ∷ [])
    ∷ lang_ext (lit "c") (lit "c" ∷ lit "h" ∷ [])
    ∷ lang_ext (lit "protobuf") (lit "proto" ∷ [])
    ∷ lang_ext (lit "yaml") (lit "yml" ∷ lit "yaml" ∷ [])
    ∷ lang_ext (lit "json") (lit "json" ∷ [])
    ∷ lang_ext (lit "xml") (lit "xml" ∷ [])
    ∷ lang_ext (lit "toml") (lit "toml" ∷ [])
    ∷ lang_ext (lit "ini") (lit "ini" ∷ lit "cfg" ∷ [])
    ∷ lang_ext (lit "properties") (lit "properties" ∷ [])
    ∷ lang_ext (lit "gradle") (lit "gradle" ∷ [])
    ∷ lang_ext (lit "terraform") (lit "tf" ∷ [])
    ∷ lang_ext (lit "bicep") (lit "bicep" ∷ [])
    ∷ lang_ext (lit "sql") (lit "sql" ∷ [])
    ∷ lang_ext (lit "markdown") (lit "md" ∷ [])
    ∷ lang_ext (lit "html") (lit "html" ∷ lit "htm" ∷ [])
    ∷ lang_ext (lit "css") (lit "css" ∷ lit "scss" ∷ lit "sass" ∷ [])
    ∷ lang_ext (lit "vue") (lit "vue" ∷ [])
    ∷ lang_ext (lit "svelte") (lit "svelte" ∷ [])
    ∷ lang_ext (lit "jsx") (lit "jsx" ∷ [])
    ∷ lang_ext (lit "shell") (lit "sh" ∷ lit "bash" ∷ [])
    ∷ []

-- The first case whose extensions include the text; an unknown extension stands for itself.
unfoldable pub ext_by_lang_in : List (Text × List Text) → Text → Text
ext_by_lang_in [] ext = ext
ext_by_lang_in ((name, exts) ∷ cases) ext =
    if contains ext exts then name else ext_by_lang_in cases ext

unfoldable pub extract_language : CodeNode → Text
unfolding ext_by_lang_in
extract_language n =
    let lang = string_property (lit "language") n.properties in
    if not (is_blank lang)
    then to_lower lang
    else if contains 46 n.file_path
    then ext_by_lang_in language_extensions (to_lower (after_last 46 n.file_path))
    else []

abbrev pub db_type_normalize : List (Text × Text)
db_type_normalize =
    (lit "mysql", lit "MySQL")
    ∷ (lit "postgresql", lit "PostgreSQL")
    ∷ (lit "postgres", lit "PostgreSQL")
    ∷ (lit "sqlserver", lit "SQL Server")
    ∷ (lit "mssql", lit "SQL Server")
    ∷ (lit "oracle", lit "Oracle")
    ∷ (lit "db2", lit "DB2")
    ∷ (lit "h2", lit "H2")
    ∷ (lit "sqlite", lit "SQLite")
    ∷ (lit "mariadb", lit "MariaDB")
    ∷ (lit "derby", lit "Derby")
    ∷ (lit "hsqldb", lit "HSQLDB")
    ∷ (lit "mongo", lit "MongoDB")
    ∷ (lit "mongodb", lit "MongoDB")
    ∷ (lit "redis", lit "Redis")
    ∷ (lit "cassandra", lit "Cassandra")
    ∷ (lit "dynamodb", lit "DynamoDB")
    ∷ (lit "couchbase", lit "Couchbase")
    ∷ (lit "neo4j", lit "Neo4j")
    ∷ (lit "cockroachdb", lit "CockroachDB")
    ∷ []

abbrev pub before_byte : Text → Option (Text × Text) → Text
before_byte s none = s
before_byte s (some (front, back)) = front

-- The type of `type@host`, under its display name.
unfoldable pub normalize_db_type : Text → Text
normalize_db_type raw =
    let lower = trim_space (to_lower raw) in
    let type = before_byte lower (cut_byte 64 lower) in
    elim (lookup type db_type_normalize) [ none ↦ trim_space raw | some v ↦ v ]

abbrev pub url_type : Option (Text × Text) → Text
url_type none = []
url_type (some ([], back)) = []
url_type (some (c ∷ front, back)) =
    let t = to_lower (c ∷ front) in elim (lookup t db_type_normalize) [ none ↦ t | some v ↦ v ]

-- `jdbc:TYPE:...`
unfoldable pub extract_db_type_from_url : Text → Text
extract_db_type_from_url url = elim (after_text (lit "jdbc:") url) [
  | none ↦ []
  | some after ↦ url_type (cut_byte 58 after)
]

-- The loop over the keys of a URL: the first type found.
unfoldable pub url_db_type : List Text → CodeNode → Option Text
unfolding extract_db_type_from_url
url_db_type [] n = none
url_db_type (key ∷ keys) n =
    let v = string_property key n.properties in
    let later = url_db_type keys n in
    if contains_text (lit "jdbc:") v
    then (elim (extract_db_type_from_url v) [ [] ↦ later | c ∷ t ↦ some (c ∷ t) ])
    else later

unfoldable pub resolve_db_type : CodeNode → Text
unfolding normalize_db_type url_db_type
resolve_db_type n =
    let db_type = string_property (lit "db_type") n.properties in
    if not (is_blank db_type)
    then normalize_db_type db_type
    else elim (url_db_type (lit "connection_url" ∷ lit "value" ∷ lit "url" ∷ []) n) [
      | some t ↦ t
      | none ↦ elim n.label [
        | [] ↦ []
        | c ∷ s ↦
            if contains_text (lit ".") (c ∷ s) || contains_text (lit "=") (c ∷ s)
            then []
            else normalize_db_type (c ∷ s)
      ]
    ]

unfoldable pub prop_or_label : CodeNode → Text → Text
prop_or_label n key =
    let v = string_property key n.properties in
    if not (is_blank v) then v else elim n.label [ [] ↦ lit "unknown" | c ∷ s ↦ c ∷ s ]
