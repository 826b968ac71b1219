-- ===== src/Codegen/Apart.antt =====
-- The method that an inferred selector came from.
use mathlib.Core.List.{append-nil, append_assoc}
use gemstone_py.Prelude.{
  ℕ, ◌≡◌, refl, sym, ap, ◌∙◌, true, false, List, [], ◌∷◌, ◌++◌, map, nat_eq, ◌==◌, length, All,
  All-append, All-map, if◌then◌else◌,
}
use gemstone_py.Prelude.Exec.{Result, ok}
use gemstone_py.Prelude.Texts.{Text, split, join}
use gemstone_py.Prelude.Texts.Splits.{Lacks, split-whole, split-first, split-join}
use gemstone_py.Codegen.{
  Letters, SelectorError, underscore, colon, unmarked, parts_of, concat, capitalize, camel_of,
  snake_to_camel, keyword, inferred_selector, selector_for_method, selector_for_callable,
  colon_count,
}
use gemstone_py.Codegen.Arity.{snake_to_camel-Lacks, inferred_selector-count}

ok-injective : {s t : Text} → ◌≡◌ {A = Result SelectorError Text} (ok s) (ok t) → s ≡ t
ok-injective h = cc

module _ (letters : Letters) where
  -- A character of a word: no capital, and neither `_` nor `:`.
  abbrev Small : ℕ → Type 0
  Small c = (letters.is_upper c ≡ false) × ((c == underscore) ≡ false) × ((c == colon) ≡ false)

  -- A letter with a capital of its own.
  abbrev Initial : ℕ → Type 0
  Initial c =
      (u : ℕ) × (letters.upper c ≡ u ∷ [])
      × (letters.is_upper u ≡ true)
      × (letters.lower u ≡ c ∷ [])

  abbrev pub FirstWord : Text → Type 0
  FirstWord [] = ⊥
  FirstWord (c ∷ s) = All Small (c ∷ s)

  abbrev pub LaterWord : Text → Type 0
  LaterWord [] = ⊥
  LaterWord (c ∷ s) = Initial c × All Small (c ∷ s)

  -- A capital is a `_` before its small letter.
  unfoldable uncamel : Text → Text
  uncamel [] = []
  uncamel (c ∷ s) =
      (if letters.is_upper c then underscore ∷ letters.lower c else c ∷ []) ++ uncamel s

  uncamel-Small : (s t : Text) → All Small s → uncamel (s ++ t) ≡ s ++ uncamel t
  unfolding uncamel
  uncamel-Small [] t h = refl
  uncamel-Small (c ∷ s) t h = rw (h.0.0, uncamel-Small s t h.1)

  uncamel-capital :
      (w t : Text) → LaterWord w → uncamel (capitalize letters w ++ t) ≡ underscore ∷ w ++ uncamel t
  unfolding uncamel capitalize
  uncamel-capital [] t h = absurd h
  uncamel-capital (c ∷ s) t ((u, up, upper, low), small) =
      rw (up, upper, low, uncamel-Small s t small.1)

  -- What `join` puts behind the first word.
  behind : List Text → Text
  unfolding concat
  behind ws = concat (map (λ w. underscore ∷ w) ws)

  join-behind : (w : Text) (ws : List Text) → join underscore (w ∷ ws) ≡ w ++ behind ws
  unfolding join behind concat
  join-behind w [] = sym (append-nil w)
  join-behind w (v ∷ ws) = ap (λ t. w ++ underscore ∷ t) (join-behind v ws)

  uncamel-capitals :
      (ws : List Text)
      → All LaterWord ws
      → uncamel (concat (map (capitalize letters) ws)) ≡ behind ws
  unfolding behind concat uncamel
  uncamel-capitals [] h = refl
  uncamel-capitals (w ∷ ws) h =
      uncamel-capital w _ h.0 ∙ ap (λ t. underscore ∷ w ++ t) (uncamel-capitals ws h.1)

  parts_of-words : (ws : List Text) → All LaterWord ws → parts_of ws ≡ ws
  unfolding parts_of
  parts_of-words [] h = refl
  parts_of-words ([] ∷ ws) h = absurd h.0
  parts_of-words ((c ∷ s) ∷ ws) h = ap (λ t. (c ∷ s) ∷ t) (parts_of-words ws h.1)

  underscore-Lacks : (w : Text) → All Small w → Lacks underscore w
  underscore-Lacks w h = All-map Small _ w (λ c small. small.1) h

  colon-Lacks : (w : Text) → All Small w → Lacks colon w
  colon-Lacks w h = All-map Small _ w (λ c small. small.2) h

  FirstWord-Small : (w : Text) → FirstWord w → All Small w
  FirstWord-Small [] h = tt
  FirstWord-Small (c ∷ s) h = h

  LaterWord-Small : (w : Text) → LaterWord w → All Small w
  LaterWord-Small [] h = tt
  LaterWord-Small (c ∷ s) h = h.1

  camel-words :
      (w : Text) (ws : List Text)
      → FirstWord w
      → All LaterWord ws
      → camel_of letters (join underscore (w ∷ ws)) (parts_of (w ∷ ws))
        ≡ w ++ concat (map (capitalize letters) ws)
  unfolding camel_of parts_of
  camel-words [] ws h k = absurd h
  camel-words (c ∷ s) ws h k =
      ap (λ t. (c ∷ s) ++ concat (map (capitalize letters) t)) (parts_of-words ws k)

  snake_to_camel-words :
      (w : Text) (ws : List Text)
      → FirstWord w
      → All LaterWord ws
      → snake_to_camel letters (join underscore (w ∷ ws))
        ≡ w ++ concat (map (capitalize letters) ws)
  unfolding snake_to_camel
  snake_to_camel-words w ws h k =
      ap (λ p. camel_of letters (join underscore (w ∷ ws)) (parts_of (p.0 ∷ p.1)))
        (split-join underscore w ws (
          underscore-Lacks w (FirstWord-Small w h),
          All-map LaterWord (Lacks underscore) ws
              (λ v later. underscore-Lacks v (LaterWord-Small v later)) k,
        ))
      ∙ camel-words w ws h k

  -- The name comes back from its camel case.
  uncamel-snake_to_camel :
      (w : Text) (ws : List Text)
      → FirstWord w
      → All LaterWord ws
      → uncamel (snake_to_camel letters (join underscore (w ∷ ws))) ≡ join underscore (w ∷ ws)
  uncamel-snake_to_camel w ws h k =
      ap uncamel (snake_to_camel-words w ws h k)
      ∙ uncamel-Small w _ (FirstWord-Small w h)
      ∙ ap (λ t. w ++ t) (uncamel-capitals ws k)
      ∙ sym (join-behind w ws)

  join-Lacks :
      (p : Text) (ps : List Text)
      → All (Lacks colon) (p ∷ ps)
      → Lacks colon (join underscore (p ∷ ps))
  unfolding join nat_eq
  join-Lacks p [] h = h.0
  join-Lacks p (q ∷ ps) h = All-append _ p _ h.0 (refl, join-Lacks q ps h.1)

  name-Lacks :
      (w : Text) (ws : List Text)
      → FirstWord w
      → All LaterWord ws
      → Lacks colon (join underscore (w ∷ ws))
  name-Lacks w ws h k = join-Lacks w ws (
    colon-Lacks w (FirstWord-Small w h),
    All-map LaterWord (Lacks colon) ws (λ v later. colon-Lacks v (LaterWord-Small v later)) k,
  )

  -- What a selector says of its method.
  method_name : Text → Text
  method_name selector = uncamel (split colon selector).0

  module _ (upper-Lacks : (c : ℕ) → (c == colon) ≡ false → Lacks colon (letters.upper c)) where
    first_keyword :
        (name : Text) (args : List Text)
        → Lacks colon name
        → (split colon (inferred_selector letters name args)).0 ≡ snake_to_camel letters name
    unfolding inferred_selector concat keyword
    first_keyword name [] h =
        ap (λ p. p.0) (split-whole colon _ (snake_to_camel-Lacks letters upper-Lacks name h))
    first_keyword name (first ∷ later) h =
        ap (λ t. (split colon t).0) (append_assoc (snake_to_camel letters name) (colon ∷ []) _)
        ∙ ap (λ p. p.0) (split-first colon _ _ (snake_to_camel-Lacks letters upper-Lacks name h))

    method_name-inferred_selector :
        (w : Text) (ws args : List Text)
        → FirstWord w
        → All LaterWord ws
        → method_name (inferred_selector letters (join underscore (w ∷ ws)) args)
          ≡ join underscore (w ∷ ws)
    unfolding method_name
    method_name-inferred_selector w ws args h k =
        ap uncamel (first_keyword _ args (name-Lacks w ws h k)) ∙ uncamel-snake_to_camel w ws h k

    -- Two methods whose names are words, each but the first with a letter that has a capital, and
    -- whose arguments have no colon get the same inferred selector only if they have the same
    -- name and as many arguments.
    pub selectors_apart :
        (w v : Text) (ws vs args brgs : List Text)
        → FirstWord w
        → All LaterWord ws
        → FirstWord v
        → All LaterWord vs
        → All (Lacks colon) args
        → All (Lacks colon) brgs
        → selector_for_callable letters (join underscore (w ∷ ws)) args unmarked
          ≡ selector_for_callable letters (join underscore (v ∷ vs)) brgs unmarked
        → (join underscore (w ∷ ws) ≡ join underscore (v ∷ vs)) × (length args ≡ length brgs)
    unfolding selector_for_callable selector_for_method
    selectors_apart w v ws vs args brgs hw hws hv hvs ha hb same =
        let equal = ok-injective same in
        (
          sym (method_name-inferred_selector w ws args hw hws)
              ∙ ap method_name equal
              ∙ method_name-inferred_selector v vs brgs hv hvs,
          sym (inferred_selector-count letters upper-Lacks _ args (name-Lacks w ws hw hws) ha)
              ∙ ap colon_count equal
              ∙ inferred_selector-count letters upper-Lacks _ brgs (name-Lacks v vs hv hvs) hb,
        )
