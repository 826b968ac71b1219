-- ===== src/Codegen.antt =====
-- The names of gemstone_py/codegen.py: the selector of a method, the class of a wrapper and its module.
pub mod Arity
pub mod Apart
mod Tests
use mathlib.Core.Option
use gemstone_py.Prelude.{
  ℕ, ◌+◌, Bool, true, false, not, ◌&&◌, ◌||◌, Option, none, some, List, [], ◌∷◌, ◌++◌, map, nat_eq,
  ◌==◌, ltb, length, if◌then◌else◌,
}
use gemstone_py.Prelude.Exec.{Result, ok, err, ◌>>=◌}
use gemstone_py.Prelude.Texts.{Text, codes, is_empty, split}
use gemstone_py.Prelude.Texts.Equality.{text_eq}

-- Python's methods of `str`, on a string of one character.
pub record Letters : Type 0 where
  pub upper : ℕ → Text
  pub lower : ℕ → Text
  pub is_upper : ℕ → Bool
  pub is_lower : ℕ → Bool
  pub is_digit : ℕ → Bool

abbrev pub underscore : ℕ
underscore = b'_'

abbrev pub colon : ℕ
colon = b':'

-- What `@gemstone_selector` left on a method: nothing, a selector, or something that is no text.
pub data Mark : Type 0 where
  unmarked : Mark
  marked : Text → Mark
  marked_otherwise : Mark

-- The `ValueError`s: of an empty selector, of a selector with so many colons on a method with so many
-- arguments, and of a selector that is no text.
pub data SelectorError : Type 0 where
  empty_selector : SelectorError
  wrong_arity : ℕ → ℕ → SelectorError
  not_text : SelectorError

-- `gemstone_selector`, by the mark that its decorator leaves.
unfoldable gemstone_selector : Text → Result SelectorError Mark
gemstone_selector selector = if is_empty selector then err empty_selector else ok (marked selector)

-- `selector.count(":")`
unfoldable pub colon_count : Text → ℕ
colon_count [] = 0
colon_count (c ∷ s) = (if c == colon then 1 else 0) + colon_count s

unfoldable pub validate_selector_arity : Text → ℕ → Result SelectorError (Unit {0})
unfolding colon_count
validate_selector_arity selector argc =
    if colon_count selector == argc then ok tt else err (wrong_arity (colon_count selector) argc)

-- The parts that are not empty.
unfoldable pub parts_of : List Text → List Text
parts_of [] = []
parts_of (part ∷ parts) = if is_empty part then parts_of parts else part ∷ parts_of parts

-- `"".join(parts)`
unfoldable pub concat : List Text → Text
concat [] = []
concat (part ∷ parts) = part ++ concat parts

module _ (letters : Letters) where
  -- `part[:1].upper() + part[1:]`
  unfoldable pub capitalize : Text → Text
  capitalize [] = []
  capitalize (c ∷ s) = letters.upper c ++ s

  unfoldable pub camel_of : Text → List Text → Text
  unfolding concat capitalize
  camel_of name [] = name
  camel_of name (part ∷ parts) = part ++ concat (map capitalize parts)

  unfoldable pub snake_to_camel : Text → Text
  unfolding camel_of parts_of
  snake_to_camel name =
      let (first, others) = split underscore name in camel_of name (parts_of (first ∷ others))

  unfoldable pub keyword : Text → Text
  unfolding snake_to_camel
  keyword name = snake_to_camel name ++ colon ∷ []

  unfoldable pub inferred_selector : Text → List Text → Text
  unfolding keyword snake_to_camel concat
  inferred_selector python_name [] = snake_to_camel python_name
  inferred_selector python_name (first ∷ later) = concat (map keyword (python_name ∷ later))

  unfoldable pub selector_for_method : Text → List Text → Option Text → Result SelectorError Text
  unfolding inferred_selector validate_selector_arity
  selector_for_method python_name arg_names none = ok (inferred_selector python_name arg_names)
  selector_for_method python_name arg_names (some explicit) =
      validate_selector_arity explicit (length arg_names) >>= λ valid. ok explicit

  unfoldable pub selector_for_callable : Text → List Text → Mark → Result SelectorError Text
  unfolding selector_for_method
  selector_for_callable python_name arg_names unmarked =
      selector_for_method python_name arg_names none
  selector_for_callable python_name arg_names (marked selector) =
      selector_for_method python_name arg_names (some selector)
  selector_for_callable python_name arg_names marked_otherwise = err not_text

  -- `previous_lower` and the characters that are left, of `_to_snake`.
  unfoldable snake_from : Bool → Text → Text
  snake_from previous_lower [] = []
  snake_from previous_lower (c ∷ s) =
      (if letters.is_upper c && previous_lower then underscore ∷ [] else [])
      ++ letters.lower c
      ++ snake_from (letters.is_lower c || letters.is_digit c) s

  unfoldable pub to_snake : Text → Text
  unfolding snake_from
  to_snake name = snake_from false name

-- A longer name without its suffix.
unfoldable without_suffix : Text → Text → Option Text
without_suffix suffix [] = none
without_suffix suffix (c ∷ s) =
    let rest = without_suffix suffix s in
    if s == suffix then some (c ∷ []) else Option.map (λ t. c ∷ t) rest

unfoldable pub wrapper_class_name : Text → Text
unfolding without_suffix
wrapper_class_name protocol_name = elim (without_suffix (codes "Protocol") protocol_name) [
  | some name ↦ name
  | none ↦ elim (without_suffix (codes "Proto") protocol_name) [
    | some name ↦ name
    | none ↦ protocol_name
  ]
]
