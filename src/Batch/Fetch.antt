-- ===== src/Batch/Fetch.antt =====
-- The fetch functions: the source that they build, and what they make of the reply. `session.eval`
-- is a parameter; what the snippet does on the server is outside the repository.
pub mod Replies
use mathlib.Core.Option
use gemstone_py.Prelude.{ℕ, Option, none, some, List, [], ◌∷◌, ◌++◌, if◌then◌else◌}
use gemstone_py.Prelude.Exec.{Result, ok, err}
use gemstone_py.Prelude.Action.{Action, ◌>>=◌}
use gemstone_py.Prelude.Texts.{Text, codes, is_empty, splitlines, split, str, int}
use gemstone_py.Session.{Fault}
use gemstone_py.Batch.{pipe, decode_escaped_field, parse_escaped_lines, parse_escaped_pairs}

-- What a fetch raises: an exception of `eval`, or the `ValueError` of `int`.
pub data FetchError : Type 0 where
  raised : Fault → FetchError
  value_error : FetchError

unfoldable pub object_for_oop_expr : ℕ → Text
object_for_oop_expr oop = codes "Object _objectForOop: " ++ str oop

escaped_field_encoder_source : Text → Text
escaped_field_encoder_source var_name =
    var_name
    ++ codes " := [:value | | text |\n"
    ++ codes "  text := value isNil ifTrue: [''] ifFalse: [value asString].\n"
    ++ codes "  text := text copyReplaceAll: '\\' with: '\\\\'.\n"
    ++ codes "  text := text copyReplaceAll: String cr with: '\\r'.\n"
    ++ codes "  text := text copyReplaceAll: String lf with: '\\n'.\n"
    ++ codes "  text := text copyReplaceAll: '|' with: '\\p'.\n"
    ++ codes "  text\n"
    ++ codes "].\n"

-- The first lines of the snippets over a mapping.
mapping_source : ℕ → Text → Text
unfolding object_for_oop_expr escaped_field_encoder_source
mapping_source oop iterate_header =
    codes "| mapping encode stream |\n"
    ++ codes "mapping := "
    ++ object_for_oop_expr oop
    ++ codes ".\n"
    ++ escaped_field_encoder_source (codes "encode")
    ++ codes "stream := ''.\n"
    ++ iterate_header
    ++ codes "\n"

keys_source : ℕ → Text → Text → Text
unfolding mapping_source
keys_source oop iterate_header key_expr =
    mapping_source oop iterate_header
    ++ codes "  stream := stream, (encode value: ("
    ++ key_expr
    ++ codes ")), String lf asString\n"
    ++ codes "].\n"
    ++ codes "stream"

pub pairs_source : ℕ → Text → Text → Text → Text
unfolding mapping_source
pairs_source oop iterate_header key_expr value_expr =
    mapping_source oop iterate_header
    ++ codes "  stream := stream,\n"
    ++ codes "    (encode value: ("
    ++ key_expr
    ++ codes ")), '|',\n"
    ++ codes "    (encode value: ("
    ++ value_expr
    ++ codes ")), String lf asString\n"
    ++ codes "].\n"
    ++ codes "stream"

pub collection_source : ℕ → Text → Text → Text
unfolding object_for_oop_expr
collection_source oop iterate_header value_expr =
    codes "| collection stream |\n"
    ++ codes "collection := "
    ++ object_for_oop_expr oop
    ++ codes ".\n"
    ++ codes "stream := ''.\n"
    ++ iterate_header
    ++ codes "\n"
    ++ codes "  stream := stream, ("
    ++ value_expr
    ++ codes "), String lf asString\n"
    ++ codes "].\n"
    ++ codes "stream"

pub oop_lists_source : ℕ → Text → Text → Text → Text
unfolding mapping_source
oop_lists_source oop iterate_header key_expr value_collection_expr =
    mapping_source oop iterate_header
    ++ codes "  stream := stream, (encode value: ("
    ++ key_expr
    ++ codes ")).\n"
    ++ codes "  ("
    ++ value_collection_expr
    ++ codes ") do: [:value |\n"
    ++ codes "    stream := stream, '|', value asOop asString\n"
    ++ codes "  ].\n"
    ++ codes "  stream := stream, String lf asString\n"
    ++ codes "].\n"
    ++ codes "stream"

-- `[(key, int(raw_oop)) for key, raw_oop in pairs]`
unfoldable pub int_values : List (Text × Text) → Option (List (Text × ℕ))
int_values [] = some []
int_values ((key, raw_oop) ∷ pairs) = elim (int raw_oop) as (λ _. Option (List (Text × ℕ))) [
  | none ↦ none
  | some oop ↦ Option.map (λ rest. (key, oop) ∷ rest) (int_values pairs)
]

-- `[(int(raw_key), int(raw_value)) for raw_key, raw_value in pairs]`
unfoldable int_pairs : List (Text × Text) → Option (List (ℕ × ℕ))
int_pairs [] = some []
int_pairs ((raw_key, raw_value) ∷ pairs) = elim (int raw_key) as (λ _. Option (List (ℕ × ℕ))) [
  | none ↦ none
  | some k ↦ elim (int raw_value) as (λ _. Option (List (ℕ × ℕ))) [
    | none ↦ none
    | some v ↦ Option.map (λ rest. (k, v) ∷ rest) (int_pairs pairs)
  ]
]

-- `[int(raw_oop) for raw_oop in ...]`
unfoldable pub int_lines : List Text → Option (List ℕ)
int_lines [] = some []
int_lines (raw_oop ∷ lines) = elim (int raw_oop) as (λ _. Option (List ℕ)) [
  | none ↦ none
  | some oop ↦ Option.map (λ oops. oop ∷ oops) (int_lines lines)
]

-- `[int(field) for field in fields if field]`
unfoldable pub int_fields : List Text → Option (List ℕ)
int_fields [] = some []
int_fields (field ∷ fields) =
    let rest = int_fields fields in
    if is_empty field then rest else elim (int field) as (λ _. Option (List ℕ)) [
      | none ↦ none
      | some n ↦ Option.map (λ ns. n ∷ ns) rest
    ]

-- The loop over the rows of `fetch_mapping_string_oop_lists`.
unfoldable pub parse_oop_rows : List Text → Option (List (Text × List ℕ))
unfolding int_fields
parse_oop_rows [] = some []
parse_oop_rows (line ∷ lines) =
    let rest = parse_oop_rows lines in
    let (field, fields) = split pipe line in
    if is_empty line
    then rest
    else elim (int_fields fields) as (λ _. Option (List (Text × List ℕ))) [
      | none ↦ none
      | some values ↦ Option.map (λ rows. (decode_escaped_field field, values) ∷ rows) rest
    ]

unfoldable pub parse_oop_lists : Option Text → Option (List (Text × List ℕ))
unfolding parse_oop_rows
parse_oop_lists none = some []
parse_oop_lists (some raw) = if is_empty raw then some [] else parse_oop_rows (splitlines raw)

module _ {W : Type 0} where
  -- A value, or `ValueError`.
  parsed : {A : Type 0} → Option A → Action W FetchError A
  parsed none w = (err value_error, w)
  parsed (some a) w = (ok a, w)

module _ {W : Type 0} (eval : Text → Action W FetchError (Option Text)) where
  unfoldable fetch_mapping_string_keys : ℕ → Text → Text → Action W FetchError (List Text)
  unfolding parsed
  fetch_mapping_string_keys oop iterate_header key_expr = do
    raw ← eval (keys_source oop iterate_header key_expr)
    parsed (some (parse_escaped_lines raw))

  unfoldable fetch_mapping_string_pairs :
      ℕ → Text → Text → Text → Action W FetchError (List (Text × Text))
  unfolding parsed
  fetch_mapping_string_pairs oop iterate_header key_expr value_expr = do
    raw ← eval (pairs_source oop iterate_header key_expr value_expr)
    parsed (some (parse_escaped_pairs raw))

  unfoldable pub fetch_mapping_string_oop_pairs :
      ℕ → Text → Text → Text → Action W FetchError (List (Text × ℕ))
  unfolding fetch_mapping_string_pairs
  fetch_mapping_string_oop_pairs oop iterate_header key_expr value_expr = do
    pairs ← fetch_mapping_string_pairs oop iterate_header key_expr value_expr
    parsed (int_values pairs)

  unfoldable fetch_mapping_oop_pairs : ℕ → Text → Text → Text → Action W FetchError (List (ℕ × ℕ))
  unfolding fetch_mapping_string_pairs
  fetch_mapping_oop_pairs oop iterate_header key_expr value_expr = do
    pairs ← fetch_mapping_string_pairs oop iterate_header key_expr value_expr
    parsed (int_pairs pairs)

  unfoldable pub fetch_collection_oops : ℕ → Text → Text → Action W FetchError (List ℕ)
  unfolding parsed
  fetch_collection_oops oop iterate_header value_expr = do
    raw ← eval (collection_source oop iterate_header value_expr)
    parsed (int_lines (parse_escaped_lines raw))

  unfoldable pub fetch_mapping_string_oop_lists :
      ℕ → Text → Text → Text → Action W FetchError (List (Text × List ℕ))
  unfolding parsed
  fetch_mapping_string_oop_lists oop iterate_header key_expr value_collection_expr = do
    raw ← eval (oop_lists_source oop iterate_header key_expr value_collection_expr)
    parsed (parse_oop_lists raw)
