-- ===== src/Query/Select.antt =====
-- `Query` of gemstone_py/gsquery.py: predicates collected one by one, the first of which the server
-- answers and the others Python.
pub mod Matches
pub mod Answers
use mathlib.Core.Option
use gemstone_py.Prelude.{
  ℕ, zero, suc, Bool, true, false, Option, none, some, List, [], ◌∷◌, ◌++◌, if◌then◌else◌,
}
use gemstone_py.Prelude.Exec.{Result, ok, err}
use gemstone_py.Prelude.Texts.{Text}
use gemstone_py.Query.{Value, Fields, Scalar, Predicate, Python, Stone, QueryError, type_error}
use gemstone_py.Query.Paths.{matches_all}
use gemstone_py.Query.Iterator.{Cursor, new_iterator, next, prepend, stopped, leave}
use gemstone_py.Query.Collection.{Call, set_oop, search_result_oop}

-- What `where` is called with: a path with the operator and the value if they are given, or a lambda,
-- by what it made of the field recorder (`none` if that is no predicate) and whether more was given.
pub data Criterion (Scalar : Type 0) : Type 0 where
  by_path : Text → Option Text → Option (Value Scalar) → Criterion Scalar
  by_lambda : Option (Predicate Scalar) → Bool → Criterion Scalar

-- A record as it is, or behind a `_RecordProxy`.
pub data Row (Scalar : Type 0) : Type 0 where
  plain : Fields Scalar → Row Scalar
  proxy : Fields Scalar → Row Scalar

module _ {Scalar : Type 0} where
  predicate_of : Criterion Scalar → Option (Predicate Scalar)
  predicate_of (by_path path (some op) (some v)) =
      some (record { ivar_path = path; op = op; value = v })
  predicate_of (by_path path (some op) none) = none
  predicate_of (by_path path none v) = none
  predicate_of (by_lambda predicate true) = none
  predicate_of (by_lambda predicate false) = predicate

  with_filter :
      List (Predicate Scalar)
      → Option (Predicate Scalar)
      → Result QueryError (List (Predicate Scalar))
  with_filter filters none = err type_error
  with_filter filters (some predicate) = ok (filters ++ predicate ∷ [])

  -- `where`, on the filters that there are.
  unfoldable where_criterion :
      List (Predicate Scalar) → Criterion Scalar → Result QueryError (List (Predicate Scalar))
  unfolding predicate_of with_filter
  where_criterion filters criterion = with_filter filters (predicate_of criterion)

  -- `_coerce_record`: whether the record type is none or `dict`.
  unfoldable pub coerce_record : Bool → Fields Scalar → Row Scalar
  coerce_record true entries = plain entries
  coerce_record false entries = proxy entries

module _ {Scalar : Type 0} (py : Python Scalar) (stone : Stone Scalar) (as_dict : Bool) where
  open stone use {World, Session}

  module _ (chunk_size : ℕ) (factory : Session → World → Result QueryError ℕ × World)
      (remaining : List (Predicate Scalar)) where
    -- The body of the loop: what the predicates say of a record, and the rest of the loop.
    unfoldable pub keep_if :
        Option Bool
        → Row Scalar
        → Cursor py stone
        → Option (Result QueryError (List (Row Scalar)) × Cursor py stone)
        → Option (Result QueryError (List (Row Scalar)) × Cursor py stone)
    unfolding prepend
    keep_if none row c rest = some (err type_error, c)
    keep_if (some true) row c rest = prepend py stone row rest
    keep_if (some false) row c rest = rest

    unfoldable pub filter_loop :
        ℕ → Cursor py stone → Option (Result QueryError (List (Row Scalar)) × Cursor py stone)
    unfolding keep_if matches_all coerce_record next stopped
    filter_loop zero c = none
    filter_loop (suc fuel) c = elim (next py stone chunk_size factory c).0 [
      | ok r ↦
          keep_if (matches_all py r remaining) (coerce_record as_dict r)
            (next py stone chunk_size factory c).1
            (filter_loop fuel (next py stone chunk_size factory c).1)
      | err e ↦ some (stopped py stone [] e, (next py stone chunk_size factory c).1)
    ]

    -- `list(query.iter())` over a new iterator, with the `finally` of the generator.
    unfoldable pub select_all :
        ℕ → Cursor py stone → Option (Result QueryError (List (Row Scalar)) × Cursor py stone)
    unfolding filter_loop leave
    select_all fuel c = Option.map (leave py stone) (filter_loop fuel c)

    unfoldable pub found_if :
        Option Bool
        → Row Scalar
        → Cursor py stone
        → Option (Result QueryError (Option (Row Scalar)) × Cursor py stone)
        → Option (Result QueryError (Option (Row Scalar)) × Cursor py stone)
    found_if none row c rest = some (err type_error, c)
    found_if (some true) row c rest = some (ok (some row), c)
    found_if (some false) row c rest = rest

    unfoldable pub first_loop :
        ℕ → Cursor py stone → Option (Result QueryError (Option (Row Scalar)) × Cursor py stone)
    unfolding found_if matches_all coerce_record next stopped
    first_loop zero c = none
    first_loop (suc fuel) c = elim (next py stone chunk_size factory c).0 [
      | ok r ↦
          found_if (matches_all py r remaining) (coerce_record as_dict r)
            (next py stone chunk_size factory c).1
            (first_loop fuel (next py stone chunk_size factory c).1)
      | err e ↦ some (stopped py stone none e, (next py stone chunk_size factory c).1)
    ]

    -- `next(iterator, default)`, by the row that was found, and the close of the generator.
    unfoldable pub select_first :
        ℕ → Cursor py stone → Option (Result QueryError (Option (Row Scalar)) × Cursor py stone)
    unfolding first_loop leave
    select_first fuel c = Option.map (leave py stone) (first_loop fuel c)

  -- A loop over a new iterator, if the chunk size passes.
  begun :
      {A : Type 0}
      → Result QueryError (Unit {0}) × Cursor py stone
      → (Cursor py stone → Option (Result QueryError A × Cursor py stone))
      → Option (Result QueryError A × Cursor py stone)
  begun (ok u, c) loop = loop c
  begun (err e, c) loop = some (err e, c)

module _ {Float : Type 0} (py : Python (Scalar Float)) (stone : Stone (Scalar Float))
    (as_dict : Bool) (name : Text) (show_float : Float → Text)
    (provided : Option stone.Session) where
  -- The iterator that answers the first predicate, and the predicates that are left.
  unfoldable pub source : List (Predicate (Scalar Float)) → stone.Session → Call stone ℕ
  source [] s = set_oop stone name s
  source (first ∷ remaining) s =
      search_result_oop stone name show_float s first.ivar_path first.op first.value

  unfoldable pub left : List (Predicate (Scalar Float)) → List (Predicate (Scalar Float))
  left [] = []
  left (first ∷ remaining) = remaining

  -- `Query.all`
  unfoldable pub all :
      ℕ
      → ℕ
      → List (Predicate (Scalar Float))
      → stone.World
      → Option (Result QueryError (List (Row (Scalar Float))) × Cursor py stone)
  unfolding source left select_all begun
  all fuel chunk_size filters w =
      begun py stone as_dict (new_iterator py stone chunk_size provided w)
        (select_all py stone as_dict chunk_size (source filters) (left filters) fuel)

  -- `Query.first`
  unfoldable pub first :
      ℕ
      → List (Predicate (Scalar Float))
      → stone.World
      → Option (Result QueryError (Option (Row (Scalar Float))) × Cursor py stone)
  unfolding source left select_first begun
  first fuel filters w =
      begun py stone as_dict (new_iterator py stone 1 provided w)
        (select_first py stone as_dict 1 (source filters) (left filters) fuel)
