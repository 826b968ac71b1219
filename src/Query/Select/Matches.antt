-- ===== src/Query/Select/Matches.antt =====
-- What a query selects of the records that its iterator gives.
use mathlib.Core.Option
use gemstone_py.Prelude.{
  ℕ, zero, suc, ◌<◌, ◌≡◌, refl, ap, Bool, Option, none, some, List, [], ◌∷◌, length, arith, All,
  Bool-cases, if◌then◌else◌, inl, inr,
}
use gemstone_py.Prelude.Exec.{Result, ok, err}
use gemstone_py.Query.{Fields, Predicate, Python, Stone, QueryError}
use gemstone_py.Query.Paths.{matches_all}
use gemstone_py.Query.Iterator.{Cursor, next, stopped, leave}
use gemstone_py.Query.Iterator.Yields.{
  Yields, Yields-open, Ends, prepend-Ends, stopped-Ends, leave-Ends, leave-open,
}
use gemstone_py.Query.Select.{
  Row, coerce_record, keep_if, filter_loop, select_all, found_if, first_loop, select_first,
}

module _ {Scalar : Type 0} (as_dict : Bool) (test : Fields Scalar → Bool) where
  -- The records that pass the test, as rows.
  unfoldable pub rows : List (Fields Scalar) → List (Row Scalar)
  rows [] = []
  rows (r ∷ rs) = if test r then coerce_record as_dict r ∷ rows rs else rows rs

abbrev pub head {ℓ} : {A : Type ℓ} → List A → Option A
head [] = none
head (a ∷ as') = some a

module _ {Scalar : Type 0} (py : Python Scalar) (stone : Stone Scalar) (as_dict : Bool)
    (chunk_size : ℕ) (factory : stone.Session → stone.World → Result QueryError ℕ × stone.World)
    (remaining : List (Predicate Scalar)) (scope : Option stone.Session)
    (test : Fields Scalar → Bool) where
  abbrev Tested : List (Fields Scalar) → Type 0
  Tested = All (λ r. matches_all py r remaining ≡ some (test r))

  -- The loops by what the call of `__next__` came to.
  filter_next :
      ℕ
      → Result QueryError (Fields Scalar) × Cursor py stone
      → Option (Result QueryError (List (Row Scalar)) × Cursor py stone)
  filter_next fuel (ok r, d) =
      keep_if py stone as_dict chunk_size factory remaining (matches_all py r remaining)
        (coerce_record as_dict r) d
        (filter_loop py stone as_dict chunk_size factory remaining fuel d)
  filter_next fuel (err e, d) = some (stopped py stone [] e, d)

  filter_loop_lem :
      (fuel : ℕ) (c : Cursor py stone) (x : Result QueryError (Fields Scalar) × Cursor py stone)
      → next py stone chunk_size factory c ≡ x
      → filter_loop py stone as_dict chunk_size factory remaining (suc fuel) c ≡ filter_next fuel x
  unfolding filter_loop filter_next
  filter_loop_lem fuel c (ok r, d) h = rw (ap (λ t. t.0) h, ap (λ t. t.1) h, filter_loop) refl
  filter_loop_lem fuel c (err e, d) h = rw (ap (λ t. t.0) h, ap (λ t. t.1) h, filter_loop) refl

  first_next :
      ℕ
      → Result QueryError (Fields Scalar) × Cursor py stone
      → Option (Result QueryError (Option (Row Scalar)) × Cursor py stone)
  first_next fuel (ok r, d) =
      found_if py stone as_dict chunk_size factory remaining (matches_all py r remaining)
        (coerce_record as_dict r) d
        (first_loop py stone as_dict chunk_size factory remaining fuel d)
  first_next fuel (err e, d) = some (stopped py stone none e, d)

  first_loop_lem :
      (fuel : ℕ) (c : Cursor py stone) (x : Result QueryError (Fields Scalar) × Cursor py stone)
      → next py stone chunk_size factory c ≡ x
      → first_loop py stone as_dict chunk_size factory remaining (suc fuel) c ≡ first_next fuel x
  unfolding first_loop first_next
  first_loop_lem fuel c (ok r, d) h = rw (ap (λ t. t.0) h, ap (λ t. t.1) h, first_loop) refl
  first_loop_lem fuel c (err e, d) h = rw (ap (λ t. t.0) h, ap (λ t. t.1) h, first_loop) refl

  filter_loop-Ends :
      (fuel : ℕ) (xs : List (Fields Scalar)) (c : Cursor py stone)
      → Yields py stone chunk_size factory scope xs c
      → Tested xs
      → length xs < fuel
      → Ends py stone chunk_size factory scope
          (rows as_dict test xs)
          (filter_loop py stone as_dict chunk_size factory remaining fuel c)
  unfolding rows filter_next keep_if
  filter_loop-Ends zero xs c y t h = absurd (omega arith)
  filter_loop-Ends (suc fuel) [] c (o, (e, d, n, r, why)) t h =
      rw (filter_loop_lem fuel c (err e, d) n)
        (stopped-Ends py stone chunk_size factory scope [] e d r why)
  filter_loop-Ends (suc fuel) (x ∷ xs) c (o, (d, n, rest)) t h =
      let ih = filter_loop-Ends fuel xs d rest t.1 (omega arith) in
      rw (filter_loop_lem fuel c (ok x, d) n, t.0)
        (elim (Bool-cases (test x)) [
          | inl kept ↦
              rw kept
                (prepend-Ends py stone chunk_size factory scope (coerce_record as_dict x) _ _ ih)
          | inr dropped ↦ rw dropped ih
        ])

  first_loop-Ends :
      (fuel : ℕ) (xs : List (Fields Scalar)) (c : Cursor py stone)
      → Yields py stone chunk_size factory scope xs c
      → Tested xs
      → length xs < fuel
      → Ends py stone chunk_size factory scope (head (rows as_dict test xs)) (
          Option.map
            (leave py stone)
            (first_loop py stone as_dict chunk_size factory remaining fuel c))
  unfolding rows first_next found_if
  first_loop-Ends zero xs c y t h = absurd (omega arith)
  first_loop-Ends (suc fuel) [] c (o, (e, d, n, r, why)) t h =
      rw (first_loop_lem fuel c (err e, d) n) (
        leave-Ends py stone chunk_size factory scope none (some (stopped py stone none e, d))
          (stopped-Ends py stone chunk_size factory scope none e d r why))
  first_loop-Ends (suc fuel) (x ∷ xs) c (o, (d, n, rest)) t h =
      let ih = first_loop-Ends fuel xs d rest t.1 (omega arith) in
      let still = Yields-open py stone chunk_size factory scope xs d rest in
      rw (first_loop_lem fuel c (ok x, d) n, t.0)
        (elim (Bool-cases (test x)) [
          | inl kept ↦ rw kept (
              leave-open py stone chunk_size factory scope (some (coerce_record as_dict x)) d
                still.0 still.1)
          | inr dropped ↦ rw dropped ih
        ])

  -- The loops see of a cursor only what `__next__` comes to.
  pub select_all-Ends :
      (fuel : ℕ) (xs : List (Fields Scalar)) (c d : Cursor py stone)
      → next py stone chunk_size factory c ≡ next py stone chunk_size factory d
      → Yields py stone chunk_size factory scope xs d
      → Tested xs
      → length xs < fuel
      → Ends py stone chunk_size factory scope
          (rows as_dict test xs)
          (select_all py stone as_dict chunk_size factory remaining fuel c)
  unfolding select_all
  select_all-Ends zero xs c d n y t h = absurd (omega arith)
  select_all-Ends (suc fuel) xs c d n y t h =
      rw (filter_loop_lem fuel c _ n, ← filter_loop_lem fuel d _ refl)
        (leave-Ends py stone chunk_size factory scope (rows as_dict test xs) _
          (filter_loop-Ends (suc fuel) xs d y t h))

  pub select_first-Ends :
      (fuel : ℕ) (xs : List (Fields Scalar)) (c d : Cursor py stone)
      → next py stone chunk_size factory c ≡ next py stone chunk_size factory d
      → Yields py stone chunk_size factory scope xs d
      → Tested xs
      → length xs < fuel
      → Ends py stone chunk_size factory scope
          (head (rows as_dict test xs))
          (select_first py stone as_dict chunk_size factory remaining fuel c)
  unfolding select_first
  select_first-Ends zero xs c d n y t h = absurd (omega arith)
  select_first-Ends (suc fuel) xs c d n y t h =
      rw (first_loop_lem fuel c _ n, ← first_loop_lem fuel d _ refl)
        (first_loop-Ends (suc fuel) xs d y t h)
