-- ===== src/Query/Paths.antt =====
-- Paths into a record: the field recorder of a query lambda, and the read of a path.
pub mod Reads
use gemstone_py.Prelude.{
  ℕ, Bool, true, false, not, Option, none, some, List, [], ◌∷◌, ◌++◌, Eq, nat_eq, ◌==◌,
  if◌then◌else◌, map,
}
use gemstone_py.Prelude.Texts.{Text, codes, split, join}
use gemstone_py.Prelude.Texts.Equality.{text_eq}
use gemstone_py.Query.{Value, scalar, array, object, Fields, no_fields, field, Predicate, Python}

abbrev pub dot : ℕ
dot = b'.'

abbrev pub at_sign : ℕ
at_sign = b'@'

-- `_FieldPath.ivar_path` of the names that the lambda went through.
unfoldable pub ivar_path : List Text → Text
unfolding join
ivar_path parts = join dot (map (λ part. at_sign ∷ part) parts)

-- `segment[1:] if segment.startswith("@") else segment`
unfoldable pub plain_segment : Text → Text
plain_segment [] = []
plain_segment (c ∷ s) = if c == at_sign then s else c ∷ s

-- `ivar_path.split(".")`
unfoldable pub segments : Text → List Text
segments path = let (first, others) = split dot path in first ∷ others

module _ {Scalar : Type 0} where
  -- `entries.get(key)`
  unfoldable pub get : Text → Fields Scalar → Option (Value Scalar)
  get key no_fields = none
  get key (field name v entries) =
      let rest = get key entries in if name == key then some v else rest

  -- The field that a segment names: under its own spelling, or without the `@`.
  unfoldable pub get_segment : Text → Fields Scalar → Option (Value Scalar)
  unfolding get plain_segment
  get_segment segment entries = elim (get segment entries) [
    | some v ↦ some v
    | none ↦ get (plain_segment segment) entries
  ]

  unfoldable pub enter_segment : Text → Value Scalar → Option (Value Scalar)
  unfolding get_segment
  enter_segment segment (object entries) = get_segment segment entries
  enter_segment segment (array vs) = none
  enter_segment segment (scalar v) = none

  -- The loop over the segments; `none` is `_MISSING`.
  unfoldable pub walk : List Text → Value Scalar → Option (Value Scalar)
  unfolding enter_segment
  walk [] current = some current
  walk (segment ∷ rest) current = elim (enter_segment segment current) [
    | none ↦ none
    | some next ↦ walk rest next
  ]

  unfoldable pub record_path_value : Fields Scalar → Text → Option (Value Scalar)
  unfolding get walk segments
  record_path_value entries path = elim (get path entries) [
    | some v ↦ some v
    | none ↦ walk (segments path) (object entries)
  ]

  module _ (py : Python Scalar) where
    -- `none` is what is raised: the `TypeError` of a comparison, or the `ValueError` of an operator.
    unfoldable pub compare_values : Text → Value Scalar → Value Scalar → Option Bool
    compare_values op v target =
        if op == codes "lt"
        then py.lt v target
        else if op == codes "lte"
        then py.le v target
        else if op == codes "gt"
        then py.gt v target
        else if op == codes "gte"
        then py.ge v target
        else if op == codes "eql"
        then some (py.eq v target)
        else if op == codes "neq"
        then some (not (py.eq v target))
        else none

    unfoldable pub record_matches_predicate : Fields Scalar → Predicate Scalar → Option Bool
    unfolding record_path_value compare_values
    record_matches_predicate entries predicate =
        elim (record_path_value entries predicate.ivar_path) [
          | none ↦ some false
          | some v ↦ compare_values predicate.op v predicate.value
        ]

    -- `all(_record_matches_predicate(record, predicate) for predicate in remaining)`
    unfoldable pub matches_all : Fields Scalar → List (Predicate Scalar) → Option Bool
    unfolding record_matches_predicate
    matches_all entries [] = some true
    matches_all entries (predicate ∷ rest) =
        let others = matches_all entries rest in
        elim (record_matches_predicate entries predicate) [
          | none ↦ none
          | some false ↦ some false
          | some true ↦ others
        ]
