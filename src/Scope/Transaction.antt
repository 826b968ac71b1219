-- ===== src/Scope/Transaction.antt =====
-- `TransactionScope` of gemstone_py/web_core.py.
pub mod Outcomes
use gemstone_py.Prelude.{ℕ, Option, none, some, Bool, true, false, if◌then◌else◌}
use gemstone_py.Prelude.Action.{Action}
use gemstone_py.Prelude.Exec.{Result, ok, err}
use gemstone_py.Session.{Fault, SessionApi}
use gemstone_py.Scope.{
  TransactionPolicy, manual, commit_on_success, abort_on_exit, FinalAction, TransactionFinalization,
  none_done, commit_done, abort_done, abort_failed, abort_after_commit_failed, request_failed,
}

abbrev pub outcome : FinalAction → Bool → Bool → TransactionFinalization
outcome a clean discard = record { action = a; clean = clean; discard = discard }

module _ (api : SessionApi) where
  open api use {World, Session, commit, abort}

  -- The world, and the attribute `last_outcome`.
  pub record ScopeState : Type 0 where
    pub world : World
    pub last_outcome : TransactionFinalization

  -- Where the abort fails, its exception replaces that of the commit.
  unfoldable pub commit_scope : Session → Action ScopeState Fault TransactionFinalization
  commit_scope session st =
      let (done, w) = commit session st.world in
      elim done [
        | ok _ ↦ (ok (outcome commit_done true false), record st { world = w })
        | err exc ↦
            let (aborted, w') = abort session w in
            elim aborted [
              | ok _ ↦ (
                err exc,
                record { world = w'; last_outcome = outcome abort_after_commit_failed true false },
              )
              | err worse ↦ (
                err worse,
                record { world = w'; last_outcome = outcome abort_after_commit_failed false true },
              )
            ]
      ]

  unfoldable pub abort_scope : Session → Bool → Action ScopeState Fault TransactionFinalization
  abort_scope session raise_errors st =
      let (aborted, w) = abort session st.world in
      elim aborted [
        | ok _ ↦ (ok (outcome abort_done true false), record st { world = w })
        | err exc ↦
            if raise_errors
            then (err exc, record st { world = w })
            else (ok (outcome abort_failed false true), record st { world = w })
      ]

  -- `self.last_outcome = ...; return self.last_outcome`, skipped when the call raised.
  unfoldable pub record_outcome :
      Result Fault TransactionFinalization × ScopeState
      → Result Fault TransactionFinalization × ScopeState
  record_outcome (ok o, st) = (ok o, record st { last_outcome = o })
  record_outcome (err e, st) = (err e, st)

  unfoldable pub finalize_policy :
      Session → TransactionPolicy → Action ScopeState Fault TransactionFinalization
  unfolding commit_scope abort_scope record_outcome
  finalize_policy session commit_on_success st = record_outcome (commit_scope session st)
  finalize_policy session abort_on_exit st = record_outcome (abort_scope session true st)
  finalize_policy session manual st = record_outcome (ok (outcome none_done false false), st)

  unfoldable pub finalize :
      Session
      → TransactionPolicy
      → ℕ
      → Option Fault
      → Option ℕ
      → Action ScopeState Fault TransactionFinalization
  unfolding finalize_policy
  finalize session policy server_error_status exc response_status st =
      if request_failed exc response_status server_error_status
      then record_outcome (abort_scope session false st)
      else finalize_policy session policy st

  -- A new scope over a session.
  abbrev pub new_scope : World → ScopeState
  new_scope w = record { world = w; last_outcome = outcome none_done false false }
