-- ===== src/Query.antt =====
-- The queries of gemstone_py/gsquery.py: records, predicates, and the session methods that they call.
pub mod Paths
pub mod Sources
pub mod Iterator
pub mod Collection
pub mod Select
mod Tests
use gemstone_py.Prelude.{ℕ, Bool, Option, List}
use gemstone_py.Prelude.Exec.{Result, ok, err}
use gemstone_py.Prelude.Action.{Action}
use gemstone_py.Prelude.Texts.{Text}
use gemstone_py.Prelude.Int.{ℤ}
use gemstone_py.Session.{Fault}

-- What a record holds, as `json.loads` gives it. Numbers, texts, Booleans and `None` are scalars.
mutual
  pub data Value (Scalar : Type 0) : Type 0 where
    scalar : Scalar → Value Scalar
    array : Values Scalar → Value Scalar
    object : Fields Scalar → Value Scalar

  pub data Values (Scalar : Type 0) : Type 0 where
    no_values : Values Scalar
    value : Value Scalar → Values Scalar → Values Scalar

  pub data Fields (Scalar : Type 0) : Type 0 where
    no_fields : Fields Scalar
    field : Text → Value Scalar → Fields Scalar → Fields Scalar

-- The scalars that a record holds.
pub data Scalar (Float : Type 0) : Type 0 where
  null : Scalar Float
  boolean : Bool → Scalar Float
  int : ℤ → Scalar Float
  float : Float → Scalar Float
  string : Text → Scalar Float

-- `QueryPredicate`
pub record Predicate (Scalar : Type 0) : Type 0 where
  pub ivar_path : Text
  pub op : Text
  pub value : Value Scalar

-- Python's comparisons, and `json.loads`; `none` is a `TypeError` and a `JSONDecodeError`.
pub record Python (Scalar : Type 0) : Type 0 where
  pub lt : Value Scalar → Value Scalar → Option Bool
  pub le : Value Scalar → Value Scalar → Option Bool
  pub gt : Value Scalar → Value Scalar → Option Bool
  pub ge : Value Scalar → Value Scalar → Option Bool
  pub eq : Value Scalar → Value Scalar → Bool
  pub loads : Text → Option (Fields Scalar)

-- The methods of a session that the queries call, and the scope of `_session` around one: what
-- `__enter__` gives, `__exit__(None, None, None)`, and `__exit__` with an exception. `run` is an
-- `eval` whose reply nothing looks at, `eval_flag` one whose truth is asked.
pub record Stone (Scalar : Type 0) : Type 1 where
  pub World : Type 0
  pub Session : Type 0
  pub enter : Action World Fault Session
  pub exit : Session → Action World Fault (Unit {0})
  pub exit_failed : Session → Action World Fault (Unit {0})
  pub run : Session → Text → Action World Fault (Unit {0})
  pub eval_flag : Session → Text → Action World Fault Bool
  pub eval : Session → Text → Action World Fault Text
  pub eval_oop : Session → Text → Action World Fault ℕ
  pub perform_oop : Session → ℕ → Text → List ℕ → Action World Fault ℕ
  pub perform_value : Session → ℕ → Text → Action World Fault ℕ
  pub resolve : Session → Text → Action World Fault ℕ
  pub new_string : Session → Text → Action World Fault ℕ
  pub new_symbol : Session → Text → Action World Fault ℕ
  pub to_oop : Session → Value Scalar → Action World Fault ℕ

-- What a query raises.
pub data QueryError : Type 0 where
  fault : Fault → QueryError
  value_error : QueryError
  key_error : Text → QueryError
  type_error : QueryError
  json_error : QueryError
  not_usable : QueryError
  stop_iteration : QueryError

unfoldable pub raised : {A W : Type 0} → Result Fault A × W → Result QueryError A × W
raised (ok a, w) = (ok a, w)
raised (err e, w) = (err (fault e), w)

-- A call of the session in a query.
abbrev pub of_session : {A W : Type 0} → Action W Fault A → Action W QueryError A
of_session m w = raised (m w)
