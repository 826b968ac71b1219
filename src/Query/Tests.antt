-- ===== src/Query/Tests.antt =====
-- Queries over a small stone: two records in an array, and a world that counts the calls.
use gemstone_py.Prelude.{
  ℕ, zero, suc, ◌+◌, ◌≤◌, ◌-◌, ◌≡◌, refl, Bool, true, false, not, Option, none, some, List, [], ◌∷◌,
  map, length, nat_eq, ◌==◌, ltb, All, ==_refl, arith,
}
use gemstone_py.Prelude.Exec.{ok}
use gemstone_py.Prelude.Int.{pos}
use gemstone_py.Prelude.Texts.{Text, codes, str, int, ends_line}
use gemstone_py.Batch.Stream.{write_lines}
use gemstone_py.Prelude.Texts.Equality.{text_eq}
use gemstone_py.Batch.Fetch.{object_for_oop_expr}
use gemstone_py.Oop.{oop_nil}
use gemstone_py.Query.{
  Value, scalar, object, Fields, no_fields, field, Scalar, Predicate, Python, Stone,
  int as int_scalar,
}
use gemstone_py.Query.Paths.{ivar_path, get, record_path_value}
use gemstone_py.Query.Sources.{array_range_source, is_blank}
use gemstone_py.Query.Iterator.Slices.{slice}
use gemstone_py.Query.Iterator.Chunks.{Printed}
use gemstone_py.Query.Iterator.Yields.{Ends}
use gemstone_py.Query.Collection.{in_session, set_oop}
use gemstone_py.Query.Paths.Reads.{LacksDot, attributes, record_path_value-ivar_path}
use gemstone_py.Query.Iterator.{fresh, list_records}
use gemstone_py.Query.Iterator.Complete.{list_records_lem}
use gemstone_py.Query.Collection.Writes.{Batch, gather, is_seen, is_hashable, bulk_upsert_unique}
use gemstone_py.Query.Collection.Writes.Replaces.{HasKeys, replace_each, bulk_upsert_unique_lem}
use gemstone_py.Prelude.Action.{pure, ◌>>=◌}
use gemstone_py.Query.Collection.Upsert.{IsEquality, Distinct, last_with, is_some}
use gemstone_py.Query.Select.{source}

abbrev Cell : Type 0
Cell = Value (Scalar ℕ)

abbrev age : ℕ → Fields (Scalar ℕ)
age n = field (codes "@age") (scalar (int_scalar (pos n))) no_fields

abbrev number : Cell → Option ℕ
number (scalar (int_scalar (pos n))) = some n
number v = none

abbrev rank : Cell → ℕ
rank v = elim (number v) [ none ↦ 0 | some n ↦ suc n ]

abbrev compared : (ℕ → ℕ → Bool) → Cell → Cell → Option Bool
compared f v w = elim (number v) [
  | none ↦ none
  | some m ↦ elim (number w) [ none ↦ none | some n ↦ some (f m n) ]
]

abbrev python : Python (Scalar ℕ)
python = record {
  lt = compared ltb;
  le = compared (λ m n. not (ltb n m));
  gt = compared (λ m n. ltb n m);
  ge = compared (λ m n. not (ltb m n));
  eq = λ v w. rank v == rank w;
  loads = λ line. elim (int line) [ none ↦ none | some n ↦ some (age n) ];
}

-- A record is written as its age.
abbrev dumps : Fields (Scalar ℕ) → Text
dumps entries = elim (get (codes "@age") entries) [
  | none ↦ []
  | some v ↦ elim (number v) [ none ↦ [] | some n ↦ str n ]
]

abbrev people : List (Fields (Scalar ℕ))
people = age 30 ∷ age 20 ∷ age 40 ∷ []

-- The digit at that place of a source.
abbrev digit_at : ℕ → Text → ℕ
digit_at zero [] = 0
digit_at zero (c ∷ source) = c - b'0'
digit_at (suc n) [] = 0
digit_at (suc n) (c ∷ source) = digit_at n source

-- The indices stand at two places of the source of a chunk.
abbrev stone : Stone (Scalar ℕ)
stone = record {
  World = ℕ;
  Session = Unit {0};
  enter = λ w. (ok tt, w + 1);
  exit = λ s w. (ok tt, w + 1);
  exit_failed = λ s w. (ok tt, w + 1);
  run = λ s source w. (ok tt, w + 1);
  eval_flag = λ s source w. (ok true, w + 1);
  eval = λ s source w. (
    ok (write_lines (map dumps (slice (digit_at 1635 source) (digit_at 1641 source) people))),
    w + 1,
  );
  eval_oop = λ s source w. (ok 7, w + 1);
  perform_oop = λ s oop selector args w. (ok 7, w + 1);
  perform_value = λ s oop selector w. (ok 3, w + 1);
  resolve = λ s name w. (ok 7, w + 1);
  new_string = λ s text w. (ok 7, w + 1);
  new_symbol = λ s text w. (ok 7, w + 1);
  to_oop = λ s v w. (ok 7, w + 1);
}

-- The server is asked for those below 100; Python keeps those above 25.
abbrev filters : List (Predicate (Scalar ℕ))
filters =
    record { ivar_path = codes "@age"; op = codes "lt"; value = scalar (int_scalar (pos 100)) }
    ∷ record { ivar_path = codes "@age"; op = codes "gt"; value = scalar (int_scalar (pos 25)) }
    ∷ []

people-Printed : All (Printed python dumps) people
unfolding get is_blank ends_line str int nat_eq text_eq
people-Printed = (
  ((refl, (refl, tt)), refl, refl),
  (((refl, (refl, tt)), refl, refl), (((refl, (refl, tt)), refl, refl), tt)),
)

chunks_written :
    (start stop w : ℕ)
    → 1 ≤ start
    → start ≤ stop
    → stop ≤ 3
    → (stone.eval tt (array_range_source 7 start stop) w).0
      ≡ ok (write_lines (map dumps (slice start stop people)))
unfolding array_range_source object_for_oop_expr str
chunks_written zero stop w h k m = absurd (omega arith)
chunks_written (suc zero) (suc zero) w h k m = refl
chunks_written (suc zero) (suc (suc zero)) w h k m = refl
chunks_written (suc zero) (suc (suc (suc zero))) w h k m = refl
chunks_written (suc (suc zero)) (suc (suc zero)) w h k m = refl
chunks_written (suc (suc zero)) (suc (suc (suc zero))) w h k m = refl
chunks_written (suc (suc (suc zero))) (suc (suc (suc zero))) w h k m = refl
chunks_written start stop w h k m = absurd (omega arith)

abbrev above : Fields (Scalar ℕ) → Bool
above (field key (scalar (int_scalar (pos n))) rest) = ltb 25 n
above entries = false

not_nil : (7 == oop_nil) ≡ false
unfolding nat_eq
not_nil = refl

list_records_lem_example :
    Ends python stone 2
      (λ s w. (ok 7, w))
      (some tt)
      people
      (list_records python stone 2 (λ s w. (ok 7, w)) 4 (fresh python stone none 0))
list_records_lem_example =
    list_records_lem python stone dumps tt 7 7 people people-Printed chunks_written 2
      (λ s w. (ok 7, w)) (λ w. refl) not_nil (λ w. refl) (λ w. refl) 4 none 0 (omega arith)
      (λ w. refl) (omega arith)

python-IsEquality : IsEquality python
unfolding nat_eq
python-IsEquality = record {
  eq_refl = λ a. ==_refl (rank a);
  eq_sym = λ a b. ground arith;
  eq_trans = λ a b c h. ground arith;
}

-- The last of two records of one age is kept, and the age stands once in the order.
abbrev aged : ℕ → ℕ → Fields (Scalar ℕ)
aged n k = field (codes "@name") (scalar (int_scalar (pos k))) (age n)

abbrev batch : List (Fields (Scalar ℕ))
batch = aged 30 1 ∷ aged 20 2 ∷ aged 30 3 ∷ []

abbrev kept : Batch python
kept = record {
  keyed =
      (scalar (int_scalar (pos 30)), aged 30 3) ∷ (scalar (int_scalar (pos 20)), aged 20 2) ∷ [];
  order = scalar (int_scalar (pos 30)) ∷ scalar (int_scalar (pos 20)) ∷ [];
}

gathered : gather python (codes "@age") batch (record { keyed = []; order = [] }) ≡ ok kept
unfolding gather get text_eq nat_eq
gathered = refl

batch-HasKeys : HasKeys python python-IsEquality stone (codes "set") str (codes "@age") batch
unfolding get is_hashable text_eq nat_eq
batch-HasKeys = (
  (scalar (int_scalar (pos 30)), refl, refl),
  ((scalar (int_scalar (pos 20)), refl, refl), ((scalar (int_scalar (pos 30)), refl, refl), tt)),
)

bulk_upsert_unique_lem_example :
    (rs : List (Cell × Fields (Scalar ℕ))) × Distinct python python-IsEquality (map (λ r. r.0) rs)
    × All (λ r. last_with python python-IsEquality (codes "@age") r.0 batch ≡ some r.1) rs
    × ((k : Cell)
        → is_seen python k (map (λ r. r.0) rs)
          ≡ is_some python python-IsEquality
              (last_with python python-IsEquality (codes "@age") k batch))
    × ((session : Option (Unit {0}))
        → bulk_upsert_unique python stone (codes "set") str (codes "@age") batch session
          ≡ in_session stone session (λ s. set_oop stone (codes "set") s >>= λ oop.
              replace_each python python-IsEquality stone (codes "set") str s oop (codes "@age") rs
              >>= λ done. pure (length rs)))
bulk_upsert_unique_lem_example =
    bulk_upsert_unique_lem python python-IsEquality stone (codes "set") str (codes "@age") batch
      batch-HasKeys

-- `row.address.zip` of a record whose address has a plain field.
abbrev resident : Fields (Scalar ℕ)
resident =
    field (codes "@address")
      (object (field (codes "zip") (scalar (int_scalar (pos 97201))) no_fields)) no_fields

path_absent : get (ivar_path (codes "address" ∷ codes "zip" ∷ [])) resident ≡ none
unfolding get ivar_path text_eq nat_eq
path_absent = refl

names-LacksDot : All LacksDot (codes "address" ∷ codes "zip" ∷ [])
unfolding nat_eq
names-LacksDot =
    ((refl, (refl, (refl, (refl, (refl, (refl, (refl, tt))))))), ((refl, (refl, (refl, tt))), tt))

record_path_value-ivar_path_example :
    record_path_value resident (ivar_path (codes "address" ∷ codes "zip" ∷ []))
    ≡ some (scalar (int_scalar (pos 97201)))
unfolding attributes get text_eq nat_eq
record_path_value-ivar_path_example =
    record_path_value-ivar_path (codes "address") (codes "zip" ∷ []) resident names-LacksDot
      path_absent
