-- ===== src/Client/Bulk/Replies.antt =====
-- The pointers of a bulk send.
use gemstone_py.Prelude.{ℕ, ◌≡◌, some, List, [], ◌∷◌, ap, ◌∙◌, All}
use gemstone_py.Prelude.Exec.{ok}
use gemstone_py.Prelude.Texts.{Text, splitlines}
use gemstone_py.Batch.Fetch.{int_fields}
use gemstone_py.Batch.Stream.{write_lines}
use gemstone_py.Batch.Lines.{IsOneLine, splitlines-write_lines}
use gemstone_py.Batch.Numerals.{str-IsOneLine}
use gemstone_py.Batch.Fetch.Replies.{numerals, int_fields-numerals}
use gemstone_py.Client.{Gci, Client}
use gemstone_py.Client.Marshal.{Marshalled, string, eval}
use gemstone_py.Client.Bulk.{
  PerformCall, PerformCallInput, coerce_perform_calls, perform_coerced, bulk_perform_calls_source,
  str_of, int_lines_of, parse_bulk, bulk_perform_calls_oop,
}

numerals-IsOneLine : (oops : List ℕ) → All IsOneLine (numerals oops)
unfolding numerals
numerals-IsOneLine [] = tt
numerals-IsOneLine (oop ∷ oops) = (str-IsOneLine oop, numerals-IsOneLine oops)

module _ (g : Gci) (me : ℕ) (other : Marshalled g.Float → Text) where
  int_lines_of_lem :
      (text : Text) {oops : List ℕ} (c : Client g)
      → int_fields (splitlines text) ≡ some oops
      → int_lines_of g me other text c ≡ (ok oops, c)
  unfolding int_lines_of
  int_lines_of_lem text c h = rw (h, int_lines_of)

  parse_bulk-numerals :
      (oops : List ℕ) (c : Client g)
      → parse_bulk g me other (string (write_lines (numerals oops))) c ≡ (ok oops, c)
  unfolding parse_bulk str_of
  parse_bulk-numerals oops c = int_lines_of_lem (write_lines (numerals oops)) c (
      ap int_fields (splitlines-write_lines (numerals oops) (numerals-IsOneLine oops))
      ∙ int_fields-numerals oops)

  bulk_oops_returned :
      (inputs : List PerformCallInput) {call : PerformCall} {calls : List PerformCall}
      (oops : List ℕ) (c : Client g) {c' : Client g}
      → coerce_perform_calls inputs ≡ some (call ∷ calls)
      → eval g me (bulk_perform_calls_source (call ∷ calls)) c
        ≡ (ok (string (write_lines (numerals oops))), c')
      → bulk_perform_calls_oop g me other inputs c ≡ (ok oops, c')
  unfolding bulk_perform_calls_oop perform_coerced
  bulk_oops_returned inputs oops c {c' = c'} coerced e =
      rw (coerced, e) (parse_bulk-numerals oops c')
