-- ===== src/Codegen/Arity.antt =====
-- The colons of a selector.
use mathlib.Core.Logic.{ite}
use gemstone_py.Prelude.{
  ℕ, ◌+◌, ◌≡◌, refl, Bool, true, false, List, [], ◌∷◌, ◌++◌, map, nat_eq, ◌==◌, length, All,
  All-append, if◌then◌else◌, arith,
}
use gemstone_py.Prelude.Exec.{Result, ok, err, ◌>>=◌}
use gemstone_py.Prelude.Texts.{Text, split, is_empty}
use gemstone_py.Prelude.Texts.Splits.{Lacks}
use gemstone_py.Codegen.{
  Letters, underscore, colon, Mark, unmarked, marked, marked_otherwise, SelectorError,
  empty_selector, wrong_arity, not_text, colon_count, validate_selector_arity, parts_of, concat,
  capitalize, camel_of, snake_to_camel, keyword, inferred_selector, selector_for_method,
  selector_for_callable,
}

-- The predicate holds of the characters of the first part and of the others.
abbrev AllParts : (ℕ → Type 0) → Text × List Text → Type 0
AllParts P (first, others) = All P first × All (All P) others

split-step :
    (P : ℕ → Type 0) (same : Bool) (c : ℕ) (field : Text) (fields : List Text)
    → P c
    → AllParts P (field, fields)
    → AllParts P (if same then ([], field ∷ fields) else (c ∷ field, fields))
split-step P true c field fields h (k, ks) = (tt, (k, ks))
split-step P false c field fields h (k, ks) = ((h, k), ks)

-- What holds of the characters of a text holds of those of its parts.
split-All : (P : ℕ → Type 0) (sep : ℕ) (s : Text) → All P s → AllParts P (split sep s)
unfolding split
split-All P sep [] h = (tt, tt)
split-All P sep (c ∷ s) h = split-step P (c == sep) c _ _ h.0 (split-All P sep s h.1)

parts_step :
    (P : Text → Type 0) (b : Bool) (part : Text) (parts : List Text)
    → P part
    → All P parts
    → All P (if b then parts else part ∷ parts)
parts_step P true part parts h k = k
parts_step P false part parts h k = (h, k)

parts_of-All : (P : Text → Type 0) (parts : List Text) → All P parts → All P (parts_of parts)
unfolding parts_of
parts_of-All P [] h = tt
parts_of-All P (part ∷ parts) h = parts_step P (is_empty part) part _ h.0 (parts_of-All P parts h.1)

colon_count-append : (s t : Text) → colon_count (s ++ t) ≡ colon_count s + colon_count t
unfolding colon_count
colon_count-append [] t = omega arith
colon_count-append (c ∷ s) t = omega (arith, colon_count-append s t)

colon_count-colon : colon_count (colon ∷ []) ≡ 1
unfolding colon_count nat_eq
colon_count-colon = refl

colon_count-Lacks : (s : Text) → Lacks colon s → colon_count s ≡ 0
unfolding colon_count
colon_count-Lacks [] h = refl
colon_count-Lacks (c ∷ s) h = rw (h.0, colon_count-Lacks s h.1)

-- What the selector of a method may be, or its error, by the mark.
unfoldable pub Fits : List Text → Mark → Result SelectorError Text → Type 0
Fits args mark (ok selector) = colon_count selector ≡ length args
Fits args mark (err empty_selector) = ⊥
Fits args mark (err not_text) = mark ≡ marked_otherwise
Fits args mark (err (wrong_arity colons argc)) =
    (selector : Text) × (mark ≡ marked selector)
    × (colons ≡ colon_count selector)
    × (argc ≡ length args)
    × ¬ (colons ≡ argc)

explicit-Fits :
    (args : List Text) (selector : Text)
    → Fits args
        (marked selector)
        (validate_selector_arity selector (length args) >>= λ valid. ok selector)
unfolding Fits validate_selector_arity
explicit-Fits args selector =
    elim (nat_eq.dec (colon_count selector) (length args))
      as (λ d. Fits args (marked selector) (
        (if ite d true false then ok tt else err (wrong_arity (colon_count selector) (length args)))
        >>= λ valid. ok selector)) [
          | yes same ↦ same
          | no differ ↦ (selector, refl, refl, refl, differ)
        ]

module _ (letters : Letters)
    (upper-Lacks : (c : ℕ) → (c == colon) ≡ false → Lacks colon (letters.upper c)) where
  capitalize-Lacks : (s : Text) → Lacks colon s → Lacks colon (capitalize letters s)
  unfolding capitalize
  capitalize-Lacks [] h = tt
  capitalize-Lacks (c ∷ s) h = All-append _ (letters.upper c) s (upper-Lacks c h.0) h.1

  capitals-Lacks :
      (parts : List Text)
      → All (Lacks colon) parts
      → Lacks colon (concat (map (capitalize letters) parts))
  unfolding concat
  capitals-Lacks [] h = tt
  capitals-Lacks (part ∷ parts) h =
      All-append _ (capitalize letters part) _ (capitalize-Lacks part h.0)
        (capitals-Lacks parts h.1)

  camel_of-Lacks :
      (name : Text) (parts : List Text)
      → Lacks colon name
      → All (Lacks colon) parts
      → Lacks colon (camel_of letters name parts)
  unfolding camel_of
  camel_of-Lacks name [] h k = h
  camel_of-Lacks name (part ∷ parts) h k = All-append _ part _ k.0 (capitals-Lacks parts k.1)

  pub snake_to_camel-Lacks :
      (name : Text) → Lacks colon name → Lacks colon (snake_to_camel letters name)
  unfolding snake_to_camel
  snake_to_camel-Lacks name h =
      let (first, others) = split underscore name in
      camel_of-Lacks name (parts_of (first ∷ others)) h
        (parts_of-All (Lacks colon) (first ∷ others) (split-All _ underscore name h))

  keyword-count : (name : Text) → Lacks colon name → colon_count (keyword letters name) ≡ 1
  unfolding keyword
  keyword-count name h = omega (
    arith,
    colon_count-append (snake_to_camel letters name) (colon ∷ []),
    colon_count-Lacks _ (snake_to_camel-Lacks name h),
    colon_count-colon,
  )

  keywords-count :
      (names : List Text)
      → All (Lacks colon) names
      → colon_count (concat (map (keyword letters) names)) ≡ length names
  unfolding concat colon_count
  keywords-count [] h = refl
  keywords-count (name ∷ names) h = omega (
    arith,
    colon_count-append (keyword letters name) (concat (map (keyword letters) names)),
    keyword-count name h.0,
    keywords-count names h.1,
  )

  pub inferred_selector-count :
      (name : Text) (args : List Text)
      → Lacks colon name
      → All (Lacks colon) args
      → colon_count (inferred_selector letters name args) ≡ length args
  unfolding inferred_selector
  inferred_selector-count name [] h k = colon_count-Lacks _ (snake_to_camel-Lacks name h)
  inferred_selector-count name (first ∷ later) h k = keywords-count (name ∷ later) (h, k.1)

  -- If no name of a method has a colon, its selector has as many colons as the method has arguments.
  -- Only a mark of the caller is refused: a selector with another number of colons, and one that is
  -- no text.
  pub selector_for_callable-Fits :
      (name : Text) (args : List Text) (mark : Mark)
      → Lacks colon name
      → All (Lacks colon) args
      → Fits args mark (selector_for_callable letters name args mark)
  unfolding Fits selector_for_callable selector_for_method
  selector_for_callable-Fits name args unmarked h k = inferred_selector-count name args h k
  selector_for_callable-Fits name args (marked selector) h k = explicit-Fits args selector
  selector_for_callable-Fits name args marked_otherwise h k = refl
