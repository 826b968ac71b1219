-- ===== src/Query/Select/Answers.antt =====
-- The answers of a query: `all` and `first`.
use gemstone_py.Prelude.{
  ℕ, ◌≤◌, ◌≡◌, Bool, false, Option, some, List, [], map, length, All, nat_eq, ◌==◌,
}
use gemstone_py.Prelude.Exec.{Result, ok}
use gemstone_py.Prelude.Texts.{Text, codes}
use gemstone_py.Oop.{oop_nil}
use gemstone_py.Batch.Stream.{write_lines}
use gemstone_py.Query.{Fields, Scalar, Predicate, Python, Stone, QueryError}
use gemstone_py.Query.Paths.{matches_all}
use gemstone_py.Query.Sources.{array_range_source}
use gemstone_py.Query.Iterator.Slices.{slice}
use gemstone_py.Query.Iterator.Chunks.{Printed}
use gemstone_py.Query.Select.{source, left}

module _ {Float : Type 0} (py : Python (Scalar Float)) (stone : Stone (Scalar Float))
    (dumps : Fields (Scalar Float) → Text) (as_dict : Bool) (name : Text)
    (show_float : Float → Text) (s : stone.Session) (collection oop : ℕ)
    (stored : List (Fields (Scalar Float))) (printed : All (Printed py dumps) stored)
    (writes : (start stop : ℕ) (w : stone.World)
      → 1 ≤ start
      → start ≤ stop
      → stop ≤ length stored
      → (stone.eval s (array_range_source oop start stop) w).0
        ≡ ok (write_lines (map dumps (slice start stop stored))))
    (filters : List (Predicate (Scalar Float))) (provided : Option stone.Session)
    (found : (w : stone.World)
      → (source py stone as_dict name show_float provided filters s w).0 ≡ ok collection)
    (not_nil : (collection == oop_nil) ≡ false)
    (as_array : (w : stone.World)
      → (stone.perform_oop s collection (codes "asArray") [] w).0 ≡ ok oop)
    (sized : (w : stone.World)
      → (stone.perform_value s oop (codes "size") w).0 ≡ ok (length stored))
    (test : Fields (Scalar Float) → Bool)
    (tested : All
      (λ r.
        matches_all py r (left py stone as_dict name show_float provided filters) ≡ some (test r))
      stored) where
  -- The iterator behind the query.
  abbrev pub answer_source : stone.Session → stone.World → Result QueryError ℕ × stone.World
  answer_source = source py stone as_dict name show_float provided filters
