-- ===== src/Client/Bulk/Literals.antt =====
-- A selector inside the source, as the server's scanner reads it.
use gemstone_py.Prelude.{
  ℕ, ◌≡◌, refl, Bool, true, false, Option, none, some, [], ◌∷◌, ◌++◌, arith, nat_eq, ◌==◌,
  if◌then◌else◌, Bool-cases, inl, inr,
}
use mathlib.Core.List.{append_assoc}
use gemstone_py.Prelude.Texts.{Text}
use gemstone_py.Client.Bulk.{quote, double_quotes, smalltalk_string_literal}

-- What a Smalltalk scanner reads behind an opening quote: the value and the source behind the literal.
-- A quote that another follows stands for itself. The flag says that the character before was a quote
-- that is not paired yet.
scan : Bool → Text → Option (Text × Text)
scan false [] = none
scan true [] = some ([], [])
scan false (c ∷ s) =
    let closing = scan true s in
    let text = scan false s in
    if c == quote
    then closing
    else elim text [ none ↦ none | some (value, rest) ↦ some (c ∷ value, rest) ]
scan true (c ∷ s) =
    let text = scan false s in
    if c == quote
    then elim text [ none ↦ none | some (value, rest) ↦ some (quote ∷ value, rest) ]
    else some ([], c ∷ s)

unfoldable scan_literal : Text → Option (Text × Text)
unfolding scan
scan_literal [] = none
scan_literal (c ∷ s) = let text = scan false s in if c == quote then text else none

-- The source behind a literal: it does not go on with a quote.
abbrev EndsLiteral : Text → Type 0
EndsLiteral [] = Unit
EndsLiteral (c ∷ s) = (c == quote) ≡ false

scan_end : (rest : Text) → EndsLiteral rest → scan false (quote ∷ rest) ≡ some ([], rest)
unfolding scan nat_eq
scan_end [] h = refl
scan_end (c ∷ s) h = rw h

scan_text :
    (c : ℕ) (s : Text) {value rest : Text}
    → (c == quote) ≡ false
    → scan false s ≡ some (value, rest)
    → scan false (c ∷ s) ≡ some (c ∷ value, rest)
unfolding scan
scan_text c s plain h = rw (plain, h)

scan_pair :
    (s : Text) {value rest : Text}
    → scan false s ≡ some (value, rest)
    → scan false (quote ∷ quote ∷ s) ≡ some (quote ∷ value, rest)
unfolding scan nat_eq
scan_pair s h = rw h

==_to_≡ : (c : ℕ) → (c == quote) ≡ true → c ≡ quote
==_to_≡ c same = ground arith

scan-double_quotes :
    (value rest : Text)
    → EndsLiteral rest
    → scan false (double_quotes value ++ quote ∷ rest) ≡ some (value, rest)
unfolding double_quotes nat_eq
scan-double_quotes [] rest h = scan_end rest h
scan-double_quotes (c ∷ s) rest h = elim (Bool-cases (c == quote)) [
  | inl same ↦ rw (same, ==_to_≡ c same) (scan_pair _ (scan-double_quotes s rest h))
  | inr plain ↦ rw plain (scan_text c _ plain (scan-double_quotes s rest h))
]

-- If the source behind a literal does not go on with a quote, a Smalltalk scanner reads the
-- literal of a text back as that text, whatever quotes are in it, and stops behind the literal.
scan_literal-smalltalk_string_literal :
    (value rest : Text)
    → EndsLiteral rest
    → scan_literal (smalltalk_string_literal value ++ rest) ≡ some (value, rest)
unfolding scan_literal smalltalk_string_literal nat_eq
scan_literal-smalltalk_string_literal value rest h =
    rw (append_assoc (double_quotes value) (quote ∷ []) rest) (scan-double_quotes value rest h)
