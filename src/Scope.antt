-- ===== src/Scope.antt =====
-- gemstone_py/web_core.py: the transaction and the session of one web request. The async versions
-- have the same bodies with `await` before the calls.
pub mod Transaction
pub mod Request
mod Tests
use gemstone_py.Prelude.{ℕ, String, Option, none, some, Bool, true, false, ◌||◌, leb}
use gemstone_py.Session.{Fault}

-- client.py: `TransactionPolicy`.
pub data TransactionPolicy : Type 0 where
  manual commit_on_success abort_on_exit : TransactionPolicy

-- The values of `TransactionFinalization.action`.
pub data FinalAction : Type 0 where
  none_done commit_done abort_done abort_failed abort_after_commit_failed already_finalized :
      FinalAction

pub record TransactionFinalization : Type 0 where
  pub action : FinalAction
  pub clean : Bool
  pub discard : Bool

-- `exc` is the exception of the handler, if it raised.
unfoldable pub request_failed : Option Fault → Option ℕ → ℕ → Bool
request_failed (some exc) response_status server_error_status = true
request_failed none none server_error_status = false
request_failed none (some status) server_error_status = leb server_error_status status
