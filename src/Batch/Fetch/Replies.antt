-- ===== src/Batch/Fetch/Replies.antt =====
-- What the fetch functions return for the rows that their snippets write.
use mathlib.Core.List.{append-nil}
use gemstone_py.Prelude.{
  ℕ, ◌≡◌, ◌≢◌, refl, ap, false, Option, some, List, [], ◌∷◌, ◌++◌, nat_eq, All, All-append, All-map,
  arith,
}
use gemstone_py.Prelude.Exec.{ok}
use gemstone_py.Prelude.Action.{Action}
use gemstone_py.Prelude.Texts.{Text, ends_line, is_empty, split, str}
use gemstone_py.Batch.{pipe, encode}
use gemstone_py.Batch.Stream.{write_lines, pair_rows, oop_columns, oop_list_rows}
use gemstone_py.Batch.Fields.{IsPlain, encode-IsField, encode-ne-nil, decode_escaped_field-encode}
use gemstone_py.Batch.Lines.{IsOneLine, LacksPipe, splitlines-write_lines, split-column, split_last}
use gemstone_py.Batch.Numerals.{int-str, str-ne-nil, str-IsOneLine, str-LacksPipe}
use gemstone_py.Batch.Rows.{
  IsPair, parse_escaped_pairs-pair_rows, IsField-IsOneLine, IsField-LacksPipe, is_empty-ne-nil,
  is_empty_line,
}
use gemstone_py.Batch.Fetch.{
  FetchError, pairs_source, oop_lists_source, int_values, int_fields, parse_oop_rows,
  parse_oop_lists, fetch_mapping_string_oop_pairs, fetch_mapping_string_oop_lists,
}

-- The pairs as the server writes them, with the numerals of the pointers.
abbrev with_numerals : List (Text × ℕ) → List (Text × Text)
with_numerals [] = []
with_numerals ((key, oop) ∷ rows) = (key, str oop) ∷ with_numerals rows

-- A row whose key the server can send.
abbrev HasPlainKey : Text × ℕ → Type 0
HasPlainKey row = IsPlain row.0

str-IsPlain : (n : ℕ) → IsPlain (str n)
str-IsPlain n = All-map (λ c. ends_line c ≡ false) _ (str n) (λ c h. ground arith) (str-IsOneLine n)

with_numerals-IsPair :
    (rows : List (Text × ℕ)) → All HasPlainKey rows → All IsPair (with_numerals rows)
with_numerals-IsPair [] h = tt
with_numerals-IsPair ((key, oop) ∷ rows) h = ((h.0, str-IsPlain oop), with_numerals-IsPair rows h.1)

int_values-with_numerals : (rows : List (Text × ℕ)) → int_values (with_numerals rows) ≡ some rows
unfolding int_values
int_values-with_numerals [] = refl
int_values-with_numerals ((key, oop) ∷ rows) =
    rw (int-str oop, int_values-with_numerals rows, int_values)

-- A row of `fetch_mapping_string_oop_lists` with a plain key that is not empty; the parser passes
-- over an empty row.
abbrev IsOopRow : Text × List ℕ → Type 0
IsOopRow row = IsPlain row.0 × (row.0 ≢ [])

oop_columns-IsOneLine : (oops : List ℕ) → IsOneLine (oop_columns oops)
unfolding oop_columns ends_line nat_eq
oop_columns-IsOneLine [] = tt
oop_columns-IsOneLine (oop ∷ oops) = (
  refl,
  All-append _ (str oop) (oop_columns oops) (str-IsOneLine oop) (oop_columns-IsOneLine oops),
)

oop_list_rows-IsOneLine :
    (rows : List (Text × List ℕ)) → All IsOopRow rows → All IsOneLine (oop_list_rows rows)
oop_list_rows-IsOneLine [] h = tt
oop_list_rows-IsOneLine ((key, oops) ∷ rows) h = (
  All-append _ (encode key) (oop_columns oops)
      (IsField-IsOneLine (encode key) (encode-IsField key h.0.0)) (oop_columns-IsOneLine oops),
  oop_list_rows-IsOneLine rows h.1,
)

-- The fields behind a clean first one.
unfoldable pub numerals : List ℕ → List Text
numerals [] = []
numerals (oop ∷ oops) = str oop ∷ numerals oops

split-oop_columns :
    (field : Text) (oops : List ℕ)
    → LacksPipe field
    → split pipe (field ++ oop_columns oops) ≡ (field, numerals oops)
unfolding oop_columns numerals
split-oop_columns field [] h = rw append-nil (split_last field h)
split-oop_columns field (oop ∷ oops) h = rw (
  split-column field (str oop ++ oop_columns oops) h,
  split-oop_columns (str oop) oops (str-LacksPipe oop),
)

pub int_fields-numerals : (oops : List ℕ) → int_fields (numerals oops) ≡ some oops
unfolding int_fields numerals
int_fields-numerals [] = refl
int_fields-numerals (oop ∷ oops) =
    rw (is_empty-ne-nil (str oop) (str-ne-nil oop), int-str oop, int_fields-numerals oops)

is_empty-append : (s rest : Text) → s ≢ [] → is_empty (s ++ rest) ≡ false
is_empty-append [] rest h = absurd (h refl)
is_empty-append (c ∷ s) rest h = refl

parse_oop_rows-oop_list_rows :
    (rows : List (Text × List ℕ))
    → All IsOopRow rows
    → parse_oop_rows (oop_list_rows rows) ≡ some rows
unfolding parse_oop_rows
parse_oop_rows-oop_list_rows [] h = refl
parse_oop_rows-oop_list_rows ((key, oops) ∷ rows) h = simp (
  is_empty-append (encode key) (oop_columns oops) (encode-ne-nil key h.0.1),
  split-oop_columns (encode key) oops (IsField-LacksPipe (encode key) (encode-IsField key h.0.0)),
  int_fields-numerals oops,
  decode_escaped_field-encode key,
  parse_oop_rows-oop_list_rows rows h.1,
)

parse_oop_lists-some :
    (lines : List Text)
    → All IsOneLine lines
    → parse_oop_lists (some (write_lines lines)) ≡ parse_oop_rows lines
unfolding parse_oop_lists write_lines parse_oop_rows
parse_oop_lists-some [] h = refl
parse_oop_lists-some (line ∷ lines) h =
    rw (is_empty_line line (write_lines lines))
      (ap parse_oop_rows (splitlines-write_lines (line ∷ lines) h))

module _ {W : Type 0} (eval : Text → Action W FetchError (Option Text)) where
  oop_pairs_fetched :
      (oop : ℕ) (header key_expr value_expr : Text) (rows : List (Text × ℕ)) {w w' : W}
      → All HasPlainKey rows
      → eval (pairs_source oop header key_expr value_expr) w
        ≡ (ok (some (write_lines (pair_rows (with_numerals rows)))), w')
      → fetch_mapping_string_oop_pairs eval oop header key_expr value_expr w ≡ (ok rows, w')
  unfolding fetch_mapping_string_oop_pairs
  oop_pairs_fetched oop header key_expr value_expr rows h e = rw (
    e,
    parse_escaped_pairs-pair_rows (with_numerals rows) (with_numerals-IsPair rows h),
    int_values-with_numerals rows,
  )

  -- If the reply holds the rows of a mapping as the snippet writes them, with plain keys that
  -- are not empty, the fetch returns those keys and all their pointers, in order.
  pub oop_lists_fetched :
      (oop : ℕ) (header key_expr value_expr : Text) (rows : List (Text × List ℕ)) {w w' : W}
      → All IsOopRow rows
      → eval (oop_lists_source oop header key_expr value_expr) w
        ≡ (ok (some (write_lines (oop_list_rows rows))), w')
      → fetch_mapping_string_oop_lists eval oop header key_expr value_expr w ≡ (ok rows, w')
  unfolding fetch_mapping_string_oop_lists
  oop_lists_fetched oop header key_expr value_expr rows h e = rw (
    e,
    parse_oop_lists-some (oop_list_rows rows) (oop_list_rows-IsOneLine rows h),
    parse_oop_rows-oop_list_rows rows h,
  )
