-- ===== src/Batch/Tests.antt =====
-- Replies with characters that need escapes, and replies that the format does not carry.
use gemstone_py.Prelude.{nat_eq, ◌≡◌, refl, some, Option, [], ◌∷◌, ◌++◌}
use gemstone_py.Prelude.Exec.{ok}
use gemstone_py.Prelude.Action.{Action}
use gemstone_py.Prelude.Texts.{Text, codes, splitlines, ends_line}
use gemstone_py.Batch.{copy_replace_all, encode, decode_escaped_field, parse_escaped_lines}
use gemstone_py.Batch.Stream.{write_lines, key_rows, oop_list_rows}
use gemstone_py.Batch.Fetch.{FetchError, fetch_mapping_string_oop_lists}
use gemstone_py.Batch.Fetch.Replies.{oop_lists_fetched}

escaped : encode (codes "a|b\\n") ≡ codes "a\\pb\\\\n"
unfolding encode copy_replace_all nat_eq
escaped = refl

unknown_escape_kept : decode_escaped_field (codes "a\\q\\") ≡ codes "a\\q\\"
unfolding decode_escaped_field nat_eq
unknown_escape_kept = refl

carriage_return_line_feed : splitlines (codes "a\r\n\nb\r") ≡ codes "a" ∷ [] ∷ codes "b" ∷ []
unfolding splitlines nat_eq
carriage_return_line_feed = refl

-- A key with a form feed comes back as two.
form_feed_splits_a_key :
    parse_escaped_lines (some (write_lines (key_rows ((codes "a" ++ 12 ∷ codes "b") ∷ []))))
    ≡ codes "a" ∷ codes "b" ∷ []
unfolding parse_escaped_lines write_lines encode copy_replace_all splitlines nat_eq
form_feed_splits_a_key = refl

-- An empty key is lost.
empty_key_lost :
    parse_escaped_lines (some (write_lines (key_rows ([] ∷ codes "a" ∷ [])))) ≡ codes "a" ∷ []
unfolding parse_escaped_lines write_lines encode copy_replace_all splitlines nat_eq
empty_key_lost = refl

-- A session that answers every evaluation with the same text.
abbrev answer : Text → Text → Action (Unit {0}) FetchError (Option Text)
answer reply source w = (ok (some reply), w)

oop_lists_fetched_example :
    fetch_mapping_string_oop_lists
      (answer (write_lines (oop_list_rows ((codes "k|", 305 ∷ 20 ∷ []) ∷ (codes "e", []) ∷ []))))
      7
      (codes "mapping associationsDo: [:assoc |")
      (codes "assoc key asString")
      (codes "assoc value")
      tt
    ≡ (ok ((codes "k|", 305 ∷ 20 ∷ []) ∷ (codes "e", []) ∷ []), tt)
unfolding nat_eq ends_line
oop_lists_fetched_example =
    oop_lists_fetched
      (answer (write_lines (oop_list_rows ((codes "k|", 305 ∷ 20 ∷ []) ∷ (codes "e", []) ∷ [])))) 7
      (codes "mapping associationsDo: [:assoc |") (codes "assoc key asString") (codes "assoc value")
      ((codes "k|", 305 ∷ 20 ∷ []) ∷ (codes "e", []) ∷ [])
      (((refl, (refl, tt)), (λ e. cc)), (((refl, tt), (λ e. cc)), tt)) refl
