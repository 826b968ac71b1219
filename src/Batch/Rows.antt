-- ===== src/Batch/Rows.antt =====
-- Parsing the rows that the snippets write.
use gemstone_py.Prelude.{
  ◌≡◌, ◌≢◌, refl, ap, ◌∙◌, false, some, List, [], ◌∷◌, ◌++◌, arith, nat_eq, All, All-map,
  All-append,
}
use gemstone_py.Prelude.Texts.{Text, ends_line, is_empty}
use gemstone_py.Batch.{
  pipe, lf, encode, decode_lines, parse_escaped_lines, parse_rows, parse_escaped_pairs,
}
use gemstone_py.Batch.Stream.{write_lines, key_rows, pair_rows}
use gemstone_py.Batch.Fields.{
  IsPlain, IsField, encode-IsField, encode-ne-nil, decode_escaped_field-encode,
}
use gemstone_py.Batch.Lines.{IsOneLine, LacksPipe, splitlines-write_lines, partition-column}

pub IsField-IsOneLine : (s : Text) → IsField s → IsOneLine s
IsField-IsOneLine s = All-map _ _ s (λ c h. ground arith)

pub IsField-LacksPipe : (s : Text) → IsField s → LacksPipe s
IsField-LacksPipe s = All-map _ _ s (λ c h. ground arith)

pub is_empty-ne-nil : (s : Text) → s ≢ [] → is_empty s ≡ false
is_empty-ne-nil [] h = absurd (h refl)
is_empty-ne-nil (c ∷ s) h = refl

is_empty-column : (s rest : Text) → is_empty (s ++ pipe ∷ rest) ≡ false
is_empty-column [] rest = refl
is_empty-column (c ∷ s) rest = refl

pub is_empty_line : (s rest : Text) → is_empty (s ++ lf ∷ rest) ≡ false
is_empty_line [] rest = refl
is_empty_line (c ∷ s) rest = refl

-- A key that its row can carry: plain, and not empty, since the parsers pass over an empty row.
abbrev IsKey : Text → Type 0
IsKey key = IsPlain key × (key ≢ [])

key_rows-IsOneLine : (ks : List Text) → All IsKey ks → All IsOneLine (key_rows ks)
key_rows-IsOneLine [] h = tt
key_rows-IsOneLine (k ∷ ks) h =
    (IsField-IsOneLine (encode k) (encode-IsField k h.0.0), key_rows-IsOneLine ks h.1)

decode_lines-key_rows : (ks : List Text) → All IsKey ks → decode_lines (key_rows ks) ≡ ks
unfolding decode_lines
decode_lines-key_rows [] h = refl
decode_lines-key_rows (k ∷ ks) h = rw (
  is_empty-ne-nil (encode k) (encode-ne-nil k h.0.1),
  decode_escaped_field-encode k,
  decode_lines-key_rows ks h.1,
)

-- The shortcut for an empty reply changes nothing.
parse_escaped_lines-some :
    (rows : List Text)
    → All IsOneLine rows
    → parse_escaped_lines (some (write_lines rows)) ≡ decode_lines rows
unfolding parse_escaped_lines write_lines decode_lines
parse_escaped_lines-some [] h = refl
parse_escaped_lines-some (row ∷ rows) h =
    rw (is_empty_line row (write_lines rows))
      (ap decode_lines (splitlines-write_lines (row ∷ rows) h))

parse_escaped_lines-key_rows :
    (ks : List Text) → All IsKey ks → parse_escaped_lines (some (write_lines (key_rows ks))) ≡ ks
parse_escaped_lines-key_rows ks h =
    parse_escaped_lines-some (key_rows ks) (key_rows-IsOneLine ks h) ∙ decode_lines-key_rows ks h

-- A pair that its row can carry.
abbrev pub IsPair : Text × Text → Type 0
IsPair p = IsPlain p.0 × IsPlain p.1

pair_rows-IsOneLine : (ps : List (Text × Text)) → All IsPair ps → All IsOneLine (pair_rows ps)
unfolding ends_line nat_eq
pair_rows-IsOneLine [] h = tt
pair_rows-IsOneLine ((k, v) ∷ ps) h = (
  All-append _ (encode k) (pipe ∷ encode v) (IsField-IsOneLine (encode k) (encode-IsField k h.0.0))
      (refl, IsField-IsOneLine (encode v) (encode-IsField v h.0.1)),
  pair_rows-IsOneLine ps h.1,
)

parse_rows-pair_rows : (ps : List (Text × Text)) → All IsPair ps → parse_rows (pair_rows ps) ≡ ps
unfolding parse_rows
parse_rows-pair_rows [] h = refl
parse_rows-pair_rows ((k, v) ∷ ps) h = rw (
  is_empty-column (encode k) (encode v),
  partition-column (encode k) (encode v) (IsField-LacksPipe (encode k) (encode-IsField k h.0.0)),
  decode_escaped_field-encode k,
  decode_escaped_field-encode v,
  parse_rows-pair_rows ps h.1,
)

parse_escaped_pairs-some :
    (rows : List Text)
    → All IsOneLine rows
    → parse_escaped_pairs (some (write_lines rows)) ≡ parse_rows rows
unfolding parse_escaped_pairs write_lines parse_rows
parse_escaped_pairs-some [] h = refl
parse_escaped_pairs-some (row ∷ rows) h =
    rw (is_empty_line row (write_lines rows))
      (ap parse_rows (splitlines-write_lines (row ∷ rows) h))

pub parse_escaped_pairs-pair_rows :
    (ps : List (Text × Text))
    → All IsPair ps
    → parse_escaped_pairs (some (write_lines (pair_rows ps))) ≡ ps
parse_escaped_pairs-pair_rows ps h =
    parse_escaped_pairs-some (pair_rows ps) (pair_rows-IsOneLine ps h) ∙ parse_rows-pair_rows ps h
