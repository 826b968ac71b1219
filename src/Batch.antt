-- ===== src/Batch.antt =====
-- The text format of batched fetches (gemstone_py/_smalltalk_batch.py): the Smalltalk block that
-- escapes a field, written out as the replacements that its source asks the server for, and the
-- Python functions that parse the reply.
pub mod Stream
pub mod Fields
pub mod Lines
pub mod Numerals
pub mod Rows
pub mod Fetch
mod Tests
use gemstone_py.Prelude.{
  ℕ, Bool, true, false, Option, none, some, List, [], ◌∷◌, ◌++◌, nat_eq, ◌==◌, contains,
  if◌then◌else◌,
}
use gemstone_py.Prelude.Texts.{Text, is_empty, splitlines, partition}

abbrev pub backslash : ℕ
backslash = b'\\'

abbrev pub cr : ℕ
cr = 13

abbrev pub lf : ℕ
lf = 10

abbrev pub pipe : ℕ
pipe = b'|'

-- `text copyReplaceAll: old with: new`, for an `old` of one character.
unfoldable pub copy_replace_all : Text → ℕ → Text → Text
copy_replace_all [] old new = []
copy_replace_all (c ∷ s) old new = (if c == old then new else c ∷ []) ++ copy_replace_all s old new

-- `escaped_field_encoder_source`, on a value that is not nil.
unfoldable pub encode : Text → Text
encode text =
    let text1 = copy_replace_all text backslash (backslash ∷ backslash ∷ []) in
    let text2 = copy_replace_all text1 cr (backslash ∷ b'r' ∷ []) in
    let text3 = copy_replace_all text2 lf (backslash ∷ b'n' ∷ []) in
    copy_replace_all text3 pipe (backslash ∷ b'p' ∷ [])

-- What the character behind a backslash appends.
decode_escape : ℕ → Text
decode_escape e =
    if e == b'n'
    then lf ∷ []
    else if e == b'r'
    then cr ∷ []
    else if e == b'p'
    then pipe ∷ []
    else if e == backslash
    then backslash ∷ []
    else backslash ∷ e ∷ []

-- The loop of `decode_escaped_field`; the first argument says whether the character before was a
-- backslash that opened an escape.
pub decode_loop : Bool → Text → Text
unfolding decode_escape
decode_loop false [] = []
decode_loop true [] = backslash ∷ []
decode_loop true (e ∷ s) = decode_escape e ++ decode_loop false s
decode_loop false (c ∷ s) =
    let escape = decode_loop true s in
    let copy = c ∷ decode_loop false s in if c == backslash then escape else copy

unfoldable pub decode_escaped_field : Text → Text
unfolding decode_loop
decode_escaped_field value = if contains value backslash then decode_loop false value else value

-- `[decode_escaped_field(line) for line in ... if line]`
unfoldable pub decode_lines : List Text → List Text
unfolding decode_escaped_field
decode_lines [] = []
decode_lines (line ∷ lines) =
    let rest = decode_lines lines in
    if is_empty line then rest else decode_escaped_field line ∷ rest

unfoldable pub parse_escaped_lines : Option Text → List Text
unfolding decode_lines
parse_escaped_lines none = []
parse_escaped_lines (some raw) = if is_empty raw then [] else decode_lines (splitlines raw)

-- The loop of `parse_escaped_pairs`.
unfoldable pub parse_rows : List Text → List (Text × Text)
unfolding decode_escaped_field
parse_rows [] = []
parse_rows (line ∷ lines) =
    let rest = parse_rows lines in
    let (key, sep, value) = partition pipe line in
    if is_empty line
    then rest
    else if sep
    then (decode_escaped_field key, decode_escaped_field value) ∷ rest
    else rest

unfoldable pub parse_escaped_pairs : Option Text → List (Text × Text)
unfolding parse_rows
parse_escaped_pairs none = []
parse_escaped_pairs (some raw) = if is_empty raw then [] else parse_rows (splitlines raw)
