-- ===== src/Query/Paths/Reads.antt =====
-- A path that a query lambda recorded, read from a record of Python's.
use gemstone_py.Prelude.{
  ◌≡◌, refl, sym, ap, ◌∙◌, Option, none, some, List, [], ◌∷◌, map, nat_eq, All, Option-cases, inl,
  inr,
}
use gemstone_py.Prelude.Texts.{Text, join}
use gemstone_py.Prelude.Texts.Splits.{Lacks, split-join}
use gemstone_py.Prelude.Texts.Equality.{text_eq}
use gemstone_py.Query.{Value, scalar, array, object, Fields}
use gemstone_py.Query.Paths.{
  dot, at_sign, ivar_path, plain_segment, segments, get, get_segment, enter_segment, walk,
  record_path_value,
}

-- A name has no dot.
abbrev pub LacksDot : Text → Type 0
LacksDot = Lacks dot

segments-join :
    (p : Text) (ps : List Text) → All LacksDot (p ∷ ps) → segments (join dot (p ∷ ps)) ≡ p ∷ ps
unfolding segments
segments-join p ps h = rw (split-join dot p ps h)

at_signs-LacksDot :
    (parts : List Text) → All LacksDot parts → All LacksDot (map (λ part. at_sign ∷ part) parts)
unfolding nat_eq
at_signs-LacksDot [] h = tt
at_signs-LacksDot (p ∷ ps) h = ((refl, h.0), at_signs-LacksDot ps h.1)

module _ {Scalar : Type 0} where
  -- An attribute of a record: the field with the `@`, or else the one without.
  attribute : Text → Value Scalar → Option (Value Scalar)
  attribute name (object entries) = elim (get (at_sign ∷ name) entries) [
    | some v ↦ some v
    | none ↦ get name entries
  ]
  attribute name (array vs) = none
  attribute name (scalar v) = none

  -- `row.a.b` of a record: one attribute after the other.
  unfoldable pub attributes : List Text → Value Scalar → Option (Value Scalar)
  unfolding attribute
  attributes [] v = some v
  attributes (name ∷ names) v = elim (attribute name v) [
    | none ↦ none
    | some next ↦ attributes names next
  ]

  enter_segment-at_sign :
      (name : Text) (v : Value Scalar) → enter_segment (at_sign ∷ name) v ≡ attribute name v
  unfolding enter_segment attribute get_segment plain_segment nat_eq
  enter_segment-at_sign name (object entries) = refl
  enter_segment-at_sign name (array vs) = refl
  enter_segment-at_sign name (scalar v) = refl

  walk-none :
      (segment : Text) (rest : List Text) (v : Value Scalar)
      → enter_segment segment v ≡ none
      → walk (segment ∷ rest) v ≡ none
  unfolding walk
  walk-none segment rest v h = rw (h, walk)

  walk-some :
      (segment : Text) (rest : List Text) (v : Value Scalar) {next : Value Scalar}
      → enter_segment segment v ≡ some next
      → walk (segment ∷ rest) v ≡ walk rest next
  unfolding walk
  walk-some segment rest v h = rw (h, walk)

  attributes-none :
      (name : Text) (names : List Text) (v : Value Scalar)
      → attribute name v ≡ none
      → attributes (name ∷ names) v ≡ none
  unfolding attributes
  attributes-none name names v h = rw (h, attributes)

  attributes-some :
      (name : Text) (names : List Text) (v : Value Scalar) {next : Value Scalar}
      → attribute name v ≡ some next
      → attributes (name ∷ names) v ≡ attributes names next
  unfolding attributes
  attributes-some name names v h = rw (h, attributes)

  walk-at_signs :
      (names : List Text) (v : Value Scalar)
      → walk (map (λ part. at_sign ∷ part) names) v ≡ attributes names v
  unfolding walk attributes
  walk-at_signs [] v = refl
  walk-at_signs (name ∷ names) v = elim (Option-cases (attribute name v)) [
    | inl missing ↦
        walk-none (at_sign ∷ name) _ v (enter_segment-at_sign name v ∙ missing)
        ∙ sym (attributes-none name names v missing)
    | inr (next, found) ↦
        walk-some (at_sign ∷ name) _ v (enter_segment-at_sign name v ∙ found)
        ∙ walk-at_signs names next
        ∙ sym (attributes-some name names v found)
  ]

  record_path_value-absent :
      (entries : Fields Scalar) (path : Text)
      → get path entries ≡ none
      → record_path_value entries path ≡ walk (segments path) (object entries)
  unfolding record_path_value
  record_path_value-absent entries path h = rw (h, record_path_value)

  -- The path that a lambda recorded reads from a record what its attributes are, one after the
  -- other, each under its name with the @ or else without it, if no name has a dot and the
  -- record has no key that is the whole path.
  pub record_path_value-ivar_path :
      (name : Text) (names : List Text) (entries : Fields Scalar)
      → All LacksDot (name ∷ names)
      → get (ivar_path (name ∷ names)) entries ≡ none
      → record_path_value entries (ivar_path (name ∷ names))
        ≡ attributes (name ∷ names) (object entries)
  unfolding ivar_path
  record_path_value-ivar_path name names entries h absent =
      record_path_value-absent entries _ absent
      ∙ ap (λ parts. walk parts (object entries))
          (segments-join _ _ (at_signs-LacksDot (name ∷ names) h))
      ∙ walk-at_signs (name ∷ names) (object entries)
