-- ===== src/Retry.antt =====
-- gemstone_py/transactions.py: a transaction that is replayed after a commit conflict, with
-- `__enter__` and `__exit__` of gemstone_py/client.py for the sessions that it owns.
pub mod Replay
pub mod Ends
mod Tests
use gemstone_py.Prelude.{
  ℕ, zero, suc, ◌+◌, ◌-◌, Option, none, some, Bool, true, false, not, List, ltb, if◌then◌else◌,
}
use gemstone_py.Prelude.Action.{Action, ◌>>=◌, ◌>>◌, pure, raise}
use gemstone_py.Prelude.Exec.{Result, ok, err}
use gemstone_py.Session.{Fault, commit_conflict, SessionApi}
use gemstone_py.Scope.{TransactionPolicy, manual, commit_on_success, abort_on_exit}

-- The two lists are the objects of the `CommitConflictError`.
pub record TransactionRetry : Type 0 where
  pub attempt : ℕ
  pub attempts : ℕ
  pub ww_oops : List ℕ
  pub wd_oops : List ℕ

unfoldable pub remaining : TransactionRetry → ℕ
remaining r = r.attempts - r.attempt

unfoldable will_retry : TransactionRetry → Bool
will_retry r = ltb r.attempt r.attempts

unfoldable exhausted : TransactionRetry → Bool
exhausted r = not (will_retry r)

-- The two `ValueError`s, the `RuntimeError` after the loops, and what a call raised.
pub data RetryError : Type 0 where
  no_attempts session_and_options unreachable : RetryError
  call_raised : Fault → RetryError

module _ (api : SessionApi) where
  open api use {World, Session, commit, abort, login, logout}

  -- `try: m() except Exception: pass`
  abbrev swallow : Action World Fault (Unit {0}) → Action World Fault (Unit {0})
  swallow m w = (ok tt, (m w).1)

  -- The `try` block of `__exit__`; the flag says that the `with` block raised.
  unfoldable pub exit_policy : TransactionPolicy → Bool → Session → Action World Fault (Unit {0})
  exit_policy policy true s = swallow (abort s)
  exit_policy commit_on_success false s = commit s
  exit_policy abort_on_exit false s = swallow (abort s)
  exit_policy manual false s = pure tt

  -- `__exit__`: the `finally` logs out, and an exception of it replaces the first.
  unfoldable pub exit_session : TransactionPolicy → Bool → Session → Action World Fault (Unit {0})
  exit_session policy failed s w =
      let (ended, w1) = exit_policy policy failed s w in
      let (left, w2) = logout s w1 in elim left [ ok _ ↦ (ended, w2) | err e ↦ (err e, w2) ]

  module _ {A : Type 0} where
    -- An exception of `__exit__` replaces the result of the block.
    unfoldable pub close_session :
        TransactionPolicy → Session → Result Fault A × World → Result Fault A × World
    close_session policy s (ok a, w) =
        let (left, w1) = exit_session policy false s w in
        elim left [ ok _ ↦ (ok a, w1) | err e ↦ (err e, w1) ]
    close_session policy s (err x, w) =
        let (left, w1) = exit_session policy true s w in
        elim left [ ok _ ↦ (err x, w1) | err e ↦ (err e, w1) ]

    -- `with session_factory() as s: body(s)`
    unfoldable pub with_session :
        Action World Fault Session
        → TransactionPolicy
        → (Session → Action World Fault A)
        → Action World Fault A
    with_session factory policy body =
        (factory >>= λ s. login s >> pure s) >>= λ s w. close_session policy s (body s w)

  module _ {A : Type 0} (work : Session → Action World Fault A)
      (on_conflict : Option (TransactionRetry → Action World Fault (Unit {0}))) where
    -- `_notify_conflict`
    unfoldable pub notify_conflict : TransactionRetry → Action World Fault (Unit {0})
    notify_conflict retry = elim on_conflict [ some listener ↦ listener retry | none ↦ pure tt ]

    -- The `try` block of both loops.
    unfoldable pub work_and_commit : Session → Action World Fault A
    work_and_commit s = work s >>= λ a. commit s >> pure a

    -- The two `except` blocks: `none` goes on with the loop.
    unfoldable pub recover : Session → ℕ → ℕ → Fault → Action World Fault (Option A)
    recover s attempts attempt (commit_conflict ww wd) =
        notify_conflict
          (record { attempt = attempt; attempts = attempts; ww_oops = ww; wd_oops = wd })
        >> abort s
        >> (if ltb attempt attempts then pure none else raise (commit_conflict ww wd))
    recover s attempts attempt e = abort s >> raise e

    unfoldable pub try_once : ℕ → ℕ → Session → Action World Fault (Option A)
    try_once attempts attempt s w =
        let (r, w1) = work_and_commit s w in
        elim r [ ok a ↦ (ok (some a), w1) | err e ↦ recover s attempts attempt e w1 ]

    -- The `for` loop, from `attempt`, with as many rounds as the first argument says.
    unfoldable pub run_attempts :
        (ℕ → Action World Fault (Option A)) → ℕ → ℕ → Action World RetryError A
    run_attempts once zero attempt w = (err unreachable, w)
    run_attempts once (suc n) attempt w =
        let (r, w1) = once attempt w in
        elim r [
          | err e ↦ (err (call_raised e), w1)
          | ok (some a) ↦ (ok a, w1)
          | ok none ↦ run_attempts once n (attempt + 1) w1
        ]

    unfoldable pub run_on_existing_session : Session → ℕ → Action World RetryError A
    run_on_existing_session s attempts =
        run_attempts (λ attempt. try_once attempts attempt s) attempts 1

    -- The factory has its options applied, the manual policy among them.
    unfoldable pub run_on_owned_sessions :
        Action World Fault Session → ℕ → Action World RetryError A
    run_on_owned_sessions factory attempts =
        run_attempts (λ attempt. with_session factory manual (try_once attempts attempt)) attempts 1

    unfoldable pub run_transaction_with_retry :
        ℕ → Option Session → Bool → Action World Fault Session → Action World RetryError A
    run_transaction_with_retry attempts session has_options factory w =
        if ltb attempts 1 then (err no_attempts, w) else elim session [
          | some s ↦
              if has_options
              then (err session_and_options, w)
              else run_on_existing_session s attempts w
          | none ↦ run_on_owned_sessions factory attempts w
        ]

    -- Another name of `run_transaction_with_retry`.
    unfoldable retrying_transaction :
        ℕ → Option Session → Bool → Action World Fault Session → Action World RetryError A
    unfolding run_transaction_with_retry
    retrying_transaction = run_transaction_with_retry
