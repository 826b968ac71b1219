-- ===== src/Batch/Fields.antt =====
-- Escaping a field and decoding it again.
use mathlib.Core.List.{append_assoc}
use gemstone_py.Prelude.{
  ℕ, ◌≡◌, ◌≢◌, refl, sym, ap, ◌∙◌, false, [], ◌∷◌, ◌++◌, arith, nat_eq, ◌==◌, contains, not, ◌&&◌,
  ◌||◌, if◌then◌else◌, inl, inr, Bool-cases, All, All-append,
}
use gemstone_py.Prelude.Texts.{Text, ends_line}
use gemstone_py.Batch.{
  backslash, cr, lf, pipe, copy_replace_all, encode, decode_loop, decode_escaped_field,
}

-- The escape of one character.
escape_char : ℕ → Text
escape_char c =
    if c == backslash
    then backslash ∷ backslash ∷ []
    else if c == cr
    then backslash ∷ b'r' ∷ []
    else if c == lf
    then backslash ∷ b'n' ∷ []
    else if c == pipe
    then backslash ∷ b'p' ∷ []
    else c ∷ []

escape_chars : Text → Text
escape_chars [] = []
escape_chars (c ∷ s) = escape_char c ++ escape_chars s

copy_replace_all-append :
    (xs ys : Text) (old : ℕ) (new : Text)
    → copy_replace_all (xs ++ ys) old new
      ≡ copy_replace_all xs old new ++ copy_replace_all ys old new
unfolding copy_replace_all
copy_replace_all-append [] ys old new = refl
copy_replace_all-append (c ∷ xs) ys old new = rw (copy_replace_all-append xs ys old new) (
    sym (
      append_assoc (if c == old then new else c ∷ []) (copy_replace_all xs old new)
        (copy_replace_all ys old new)))

encode-append : (xs ys : Text) → encode (xs ++ ys) ≡ encode xs ++ encode ys
unfolding encode
encode-append xs ys = simp (copy_replace_all-append)

encode_char : (c : ℕ) → encode (c ∷ []) ≡ escape_char c
unfolding encode copy_replace_all escape_char
encode_char c = ground arith

encode_nil : encode [] ≡ []
unfolding encode copy_replace_all
encode_nil = refl

decode_loop_nil : decode_loop false [] ≡ []
unfolding decode_loop
decode_loop_nil = refl

-- The four passes over the text come to one pass, character by character.
encode-eq-escape_chars : (s : Text) → encode s ≡ escape_chars s
unfolding escape_chars
encode-eq-escape_chars [] = encode_nil
encode-eq-escape_chars (c ∷ s) =
    encode-append (c ∷ []) s ∙ (λ i. encode_char c i ++ encode-eq-escape_chars s i)

decode_loop-escape_char :
    (c : ℕ) (rest : Text) → decode_loop false (escape_char c ++ rest) ≡ c ∷ decode_loop false rest
unfolding decode_loop escape_char
decode_loop-escape_char c rest = ground arith

decode_loop-escape_chars : (s : Text) → decode_loop false (escape_chars s) ≡ s
unfolding escape_chars
decode_loop-escape_chars [] = decode_loop_nil
decode_loop-escape_chars (c ∷ s) =
    decode_loop-escape_char c (escape_chars s) ∙ ap (λ t. c ∷ t) (decode_loop-escape_chars s)

decode_loop_plain : (s : Text) → contains s backslash ≡ false → decode_loop false s ≡ s
unfolding decode_loop
decode_loop_plain [] h = refl
decode_loop_plain (c ∷ s) h = ground (arith, decode_loop_plain s)

-- The shortcut for a field without a backslash changes nothing.
decode_escaped_field-eq-loop : (s : Text) → decode_escaped_field s ≡ decode_loop false s
unfolding decode_escaped_field
decode_escaped_field-eq-loop s = elim (Bool-cases (contains s backslash)) [
  | inl e ↦ rw e
  | inr e ↦ rw e (sym (decode_loop_plain s e))
]

-- Decoding an escaped field gives the field back.
pub decode_escaped_field-encode : (s : Text) → decode_escaped_field (encode s) ≡ s
decode_escaped_field-encode s =
    rw (decode_escaped_field-eq-loop, encode-eq-escape_chars) (decode_loop-escape_chars s)

-- The text has none of the characters that end a line for `splitlines` and that the block leaves
-- as they are, which are all of them but `\n` and `\r`.
abbrev pub IsPlain : Text → Type 0
IsPlain = All (λ c. (ends_line c && not (c == lf || c == cr)) ≡ false)

-- The text has no end of a line and no `|`.
abbrev pub IsField : Text → Type 0
IsField = All (λ c. (ends_line c || c == pipe) ≡ false)

escape_char-IsField :
    (c : ℕ) → (ends_line c && not (c == lf || c == cr)) ≡ false → IsField (escape_char c)
unfolding ends_line escape_char
escape_char-IsField c h = ground arith

escape_chars-IsField : (s : Text) → IsPlain s → IsField (escape_chars s)
unfolding escape_chars
escape_chars-IsField [] h = tt
escape_chars-IsField (c ∷ s) h =
    All-append _ (escape_char c) (escape_chars s) (escape_char-IsField c h.0)
      (escape_chars-IsField s h.1)

-- An escaped field stays in its row and in its column.
pub encode-IsField : (s : Text) → IsPlain s → IsField (encode s)
encode-IsField s h = rw encode-eq-escape_chars (escape_chars-IsField s h)

escape_chars-ne-nil : (c : ℕ) (s : Text) → escape_chars (c ∷ s) ≢ []
unfolding escape_chars escape_char
escape_chars-ne-nil c s = ground arith

pub encode-ne-nil : (s : Text) → s ≢ [] → encode s ≢ []
encode-ne-nil [] h = absurd (h refl)
encode-ne-nil (c ∷ s) h = rw encode-eq-escape_chars (escape_chars-ne-nil c s)
