-- ===== src/Session.antt =====
-- The session as the helpers of the package see it: the methods of `GemStoneSession`
-- (gemstone_py/client.py) and `commit` of gemstone_py/concurrency.py. What they do to the stone is
-- outside the repository, so they are actions on an unknown world.
use gemstone_py.Prelude.{ℕ, List}
use gemstone_py.Prelude.Action.{Action}

-- What a call on a session raises: a `CommitConflictError` with the objects in conflict, a
-- `GemStoneError` with its number, a `RuntimeError`, or any other exception.
pub data Fault : Type 0 where
  commit_conflict : List ℕ → List ℕ → Fault
  gemstone_error : ℕ → Fault
  runtime_error : Fault
  other_exception : ℕ → Fault

pub record SessionApi : Type 1 where
  pub World : Type 0
  pub Session : Type 0
  pub commit : Session → Action World Fault (Unit {0})
  pub abort : Session → Action World Fault (Unit {0})
  pub login : Session → Action World Fault (Unit {0})
  pub logout : Session → Action World Fault (Unit {0})
