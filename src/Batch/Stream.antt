-- ===== src/Batch/Stream.antt =====
-- What the evaluated snippets of the fetch functions write, row by row.
use gemstone_py.Prelude.{ℕ, List, [], ◌∷◌, ◌++◌}
use gemstone_py.Prelude.Texts.{Text, str}
use gemstone_py.Batch.{lf, pipe, encode}

-- Each line with its `\n`.
unfoldable pub write_lines : List Text → Text
write_lines [] = []
write_lines (s ∷ lines) = s ++ lf ∷ write_lines lines

-- `(encode value: key)`, a row each
abbrev pub key_rows : List Text → List Text
key_rows [] = []
key_rows (key ∷ ks) = encode key ∷ key_rows ks

-- `(encode value: key), '|', (encode value: value)`
abbrev pub pair_rows : List (Text × Text) → List Text
pair_rows [] = []
pair_rows ((key, value) ∷ ps) = (encode key ++ pipe ∷ encode value) ∷ pair_rows ps

-- `'|', value asOop asString` for each value
unfoldable pub oop_columns : List ℕ → Text
oop_columns [] = []
oop_columns (oop ∷ oops) = pipe ∷ str oop ++ oop_columns oops

abbrev pub oop_list_rows : List (Text × List ℕ) → List Text
oop_list_rows [] = []
oop_list_rows ((key, oops) ∷ rows) = (encode key ++ oop_columns oops) ∷ oop_list_rows rows
