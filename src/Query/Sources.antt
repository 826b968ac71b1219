-- ===== src/Query/Sources.antt =====
-- The sources that materialize records, and what is made of their reply.
use gemstone_py.Prelude.{
  ℕ, Bool, true, ◌&&◌, ◌||◌, Option, none, some, List, [], ◌∷◌, ◌++◌, nat_eq, ◌==◌, leb,
  if◌then◌else◌,
}
use gemstone_py.Prelude.Texts.{Text, codes, str, splitlines}
use gemstone_py.Batch.Fetch.{object_for_oop_expr}
use gemstone_py.Query.{Fields, Python}

unfoldable json_string_encoder_source : Text → Text
json_string_encoder_source var_name =
    var_name
    ++ codes " := [:text | | escaped |\n"
    ++ codes "  escaped := text asString.\n"
    ++ codes "  escaped := escaped copyReplaceAll: '\\' with: '\\\\'.\n"
    ++ codes "  escaped := escaped copyReplaceAll: '\"' with: '\\\"'.\n"
    ++ codes "  escaped := escaped copyReplaceAll: String cr with: '\\r'.\n"
    ++ codes "  escaped := escaped copyReplaceAll: String lf with: '\\n'.\n"
    ++ codes "  escaped\n"
    ++ codes "].\n"

-- The blocks that write a record as one line of JSON.
unfoldable record_encoder_source : Text
record_encoder_source =
    codes "encodeValue := nil.\n"
    ++ codes "encodeMap := nil.\n"
    ++ codes "encodeSequence := nil.\n"
    ++ codes "encodeSequence := [:seq | | out first |\n"
    ++ codes "  out := '['.\n"
    ++ codes "  first := true.\n"
    ++ codes "  seq do: [:each |\n"
    ++ codes "    first ifFalse: [ out := out, ',' ].\n"
    ++ codes "    out := out, (encodeValue value: each).\n"
    ++ codes "    first := false\n"
    ++ codes "  ].\n"
    ++ codes "  out, ']'\n"
    ++ codes "].\n"
    ++ codes "encodeMap := [:map | | out first |\n"
    ++ codes "  out := '{'.\n"
    ++ codes "  first := true.\n"
    ++ codes "  map keysAndValuesDo: [:key :value |\n"
    ++ codes "    first ifFalse: [ out := out, ',' ].\n"
    ++ codes "    out := out,\n"
    ++ codes "      '\"', (encodeString value: key), '\":', (encodeValue value: value).\n"
    ++ codes "    first := false\n"
    ++ codes "  ].\n"
    ++ codes "  out, '}'\n"
    ++ codes "].\n"
    ++ codes "encodeValue := [:value |\n"
    ++ codes "  value isNil ifTrue: [ 'null' ] ifFalse: [\n"
    ++ codes "    value == true ifTrue: [ 'true' ] ifFalse: [\n"
    ++ codes "      value == false ifTrue: [ 'false' ] ifFalse: [\n"
    ++ codes "        ((value isKindOf: String) or: [ value class == Symbol ]) ifTrue: [\n"
    ++ codes "          '\"', (encodeString value: value), '\"'\n"
    ++ codes "        ] ifFalse: [\n"
    ++ codes "          (value respondsTo: #keysAndValuesDo:) ifTrue: [\n"
    ++ codes "            encodeMap value: value\n"
    ++ codes "          ] ifFalse: [\n"
    ++ codes "            ((value isKindOf: SequenceableCollection)\n"
    ++ codes "              and: [(value isKindOf: String) not])\n"
    ++ codes "              ifTrue: [ encodeSequence value: value ]\n"
    ++ codes "              ifFalse: [ value printString ]\n"
    ++ codes "          ]\n"
    ++ codes "        ]\n"
    ++ codes "      ]\n"
    ++ codes "    ]\n"
    ++ codes "  ]\n"
    ++ codes "].\n"

unfoldable records_source : ℕ → Text
unfolding json_string_encoder_source record_encoder_source
records_source collection_oop =
    codes "| collection encodeString encodeValue encodeMap encodeSequence stream |\n"
    ++ codes "collection := "
    ++ object_for_oop_expr collection_oop
    ++ codes ".\n"
    ++ json_string_encoder_source (codes "encodeString")
    ++ record_encoder_source
    ++ codes "stream := ''.\n"
    ++ codes "collection do: [:record |\n"
    ++ codes "  stream := stream, (encodeMap value: record), String lf asString\n"
    ++ codes "].\n"
    ++ codes "stream"

-- The records from the index `start` to `stop`, both counted from 1.
unfoldable pub array_range_source : ℕ → ℕ → ℕ → Text
unfolding json_string_encoder_source record_encoder_source
array_range_source array_oop start stop =
    codes "| array encodeString encodeValue encodeMap encodeSequence stream |\n"
    ++ codes "array := "
    ++ object_for_oop_expr array_oop
    ++ codes ".\n"
    ++ json_string_encoder_source (codes "encodeString")
    ++ record_encoder_source
    ++ codes "stream := ''.\n"
    ++ str start
    ++ codes " to: "
    ++ str stop
    ++ codes " do: [:index | | record |\n"
    ++ codes "  record := array at: index.\n"
    ++ codes "  stream := stream, (encodeMap value: record), String lf asString\n"
    ++ codes "].\n"
    ++ codes "stream"

-- Python's white space.
unfoldable is_space : ℕ → Bool
is_space c =
    leb 9 c && leb c 13
    || leb 28 c && leb c 32
    || c == 0x85
    || c == 0xA0
    || c == 0x1680
    || leb 0x2000 c && leb c 0x200A
    || c == 0x2028
    || c == 0x2029
    || c == 0x202F
    || c == 0x205F
    || c == 0x3000

-- `not line.strip()`
unfoldable pub is_blank : Text → Bool
unfolding is_space
is_blank [] = true
is_blank (c ∷ line) = is_space c && is_blank line

module _ {Scalar : Type 0} (py : Python Scalar) where
  -- `[json.loads(line) for line in lines if line.strip()]`
  unfoldable pub load_lines : List Text → Option (List (Fields Scalar))
  unfolding is_blank
  load_lines [] = some []
  load_lines (line ∷ lines) =
      let rest = load_lines lines in
      if is_blank line then rest else elim (py.loads line) [
        | none ↦ none
        | some record_fields ↦ elim rest [
          | none ↦ none
          | some others ↦ some (record_fields ∷ others)
        ]
      ]

  unfoldable pub load_records : Text → Option (List (Fields Scalar))
  unfolding load_lines
  load_records raw = load_lines (splitlines raw)
