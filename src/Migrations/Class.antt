-- ===== src/Migrations/Class.antt =====
-- The class-style `Migration` of gemstone_py/migrations.py: the commit with retries, the lifecycle and
-- the iteration in chunks. What it prints is left out.
pub mod Commits
pub mod Chunks
mod Tests
use Prim.Native.Nat.{◌%◌}
use gemstone_py.Prelude.{
  ℕ, zero, suc, ◌+◌, String, Option, none, some, Bool, not, List, [], ◌∷◌, nat_eq, ◌==◌,
  if◌then◌else◌,
}
use gemstone_py.Prelude.Exec.{Result, ok, err}
use gemstone_py.Prelude.Action.{Action, pure, raise, ◌>>=◌, ◌>>◌}
use gemstone_py.Session.{Fault, commit_conflict}

-- What a method raises: an exception of a call, the `MigrationError` after the last attempt, the
-- `MigrationError` or `NotImplementedError` of a method that is not overridden, and the
-- `ZeroDivisionError` of `% n`.
pub data ClassError : Type 0 where
  raised : Fault → ClassError
  commit_failed : ℕ → ClassError
  not_supported : ClassError
  zero_division : ClassError

-- The session, `commit` of gemstone_py/concurrency.py, and `list_instances`, wrapped or not.
pub record ClassApi : Type 1 where
  pub World : Type 0
  pub Instance : Type 0
  pub commit : Action World Fault (Unit {0})
  pub abort : Action World Fault (Unit {0})
  pub list_instances : String → Bool → Action World Fault (List Instance)

module _ (api : ClassApi) where
  abbrev pub Run : Type 0 → Type 0
  Run A = Action api.World ClassError A

  lift_result : {A : Type 0} → Result Fault A → Result ClassError A
  lift_result (ok a) = ok a
  lift_result (err e) = err (raised e)

  -- A call whose exception goes on as it is.
  unfoldable pub call : {A : Type 0} → Action api.World Fault A → Run A
  unfolding lift_result
  call m w = (lift_result (m w).0, (m w).1)

  -- The attributes and methods of a subclass; `none` for a method that is not overridden.
  pub record Migration : Type 0 where
    pub chunk_size : ℕ
    pub max_retries : ℕ
    pub up : Option (Run (Unit {0}))
    pub down : Option (Run (Unit {0}))

  -- The `except` clause, with the number of attempts that are left and what they do.
  unfoldable pub after_commit : ℕ → ℕ → Run (Unit {0}) → Result Fault (Unit {0}) → Run (Unit {0})
  after_commit max_retries left rest (ok a) = pure tt
  after_commit max_retries zero rest (err (commit_conflict readers writers)) =
      raise (commit_failed max_retries)
  after_commit max_retries (suc left) rest (err (commit_conflict readers writers)) = do
    call api.abort
    rest
  after_commit max_retries left rest (err e) = raise (raised e)

  -- The attempts that are left. With none at the start the loop does nothing.
  unfoldable pub commit_attempts : ℕ → ℕ → Run (Unit {0})
  commit_attempts max_retries zero w = (ok tt, w)
  commit_attempts max_retries (suc left) w =
      after_commit max_retries left (commit_attempts max_retries left) (api.commit w).0
        (api.commit w).1

  unfoldable pub commit_with_retry : Migration → Run (Unit {0})
  commit_with_retry mig = commit_attempts mig.max_retries mig.max_retries

  overridden : Option (Run (Unit {0})) → Run (Unit {0})
  overridden none = raise not_supported
  overridden (some m) = m

  unfoldable pub run : Migration → Run (Unit {0})
  unfolding overridden
  run mig = do call api.abort; overridden mig.up; commit_with_retry mig

  unfoldable pub rollback : Migration → Run (Unit {0})
  unfolding overridden
  rollback mig = do call api.abort; overridden mig.down; commit_with_retry mig

  -- `if i % n == 0` and its branch, or the negated test.
  unfoldable pub commit_if : Migration → ℕ → Bool → Run (Unit {0})
  commit_if mig n test =
      if n == 0 then raise zero_division else if test then commit_with_retry mig else pure tt

  -- The loop: the number of instances before, which is `total` too.
  unfoldable pub chunk_loop :
      Migration → (api.Instance → Run (Unit {0})) → ℕ → ℕ → List api.Instance → Run ℕ
  chunk_loop mig callback n i [] = pure i
  chunk_loop mig callback n i (instance_oop ∷ instances) = do
    callback instance_oop
    commit_if mig n ((i + 1) % n == 0)
    chunk_loop mig callback n (i + 1) instances

  -- `chunk_size or self.chunk_size`
  unfoldable pub chunk_of : Migration → Option ℕ → ℕ
  chunk_of mig none = mig.chunk_size
  chunk_of mig (some n) = if n == 0 then mig.chunk_size else n

  unfoldable pub each_in_chunks :
      Migration → String → (api.Instance → Run (Unit {0})) → Option ℕ → Bool → Run ℕ
  each_in_chunks mig class_name callback chunk_size wrap = do
    instances ← call (api.list_instances class_name wrap)
    total ← chunk_loop mig callback (chunk_of mig chunk_size) 0 instances
    commit_if mig (chunk_of mig chunk_size) (not (total % chunk_of mig chunk_size == 0))
    pure total
