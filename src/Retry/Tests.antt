-- ===== src/Retry/Tests.antt =====
-- A work over a stone whose first commit conflicts: the world is the number of commits tried.
use gemstone_py.Prelude.{ℕ, ◌+◌, ◌<◌, ◌≡◌, refl, Option, none, [], ltb, if◌then◌else◌}
use gemstone_py.Prelude.Action.{Action}
use gemstone_py.Prelude.Exec.{Result, ok, err}
use gemstone_py.Session.{Fault, commit_conflict, SessionApi}
use gemstone_py.Scope.{manual}
use gemstone_py.Retry.{
  TransactionRetry, exit_policy, exit_session, close_session, with_session, notify_conflict,
  work_and_commit, recover, try_once, run_attempts, run_on_existing_session, run_on_owned_sessions,
}
use gemstone_py.Retry.Replay.{Rounds, Commits, owned_sessions_returned}

abbrev stone : SessionApi
stone = record {
  World = ℕ;
  Session = ℕ;
  commit = λ s w. if ltb w 1 then (err (commit_conflict [] []), w + 1) else (ok tt, w + 1);
  abort = λ s w. (ok tt, w);
  login = λ s w. (ok tt, w);
  logout = λ s w. (ok tt, w);
}

abbrev work : ℕ → Action ℕ Fault ℕ
work s w = (ok (w + 40), w)

abbrev listener : Option (TransactionRetry → Action ℕ Fault (Unit {0}))
listener = none

abbrev factory : Action ℕ Fault ℕ
factory w = (ok 7, w)

existing_run : run_on_existing_session stone work listener 7 3 0 ≡ (ok 41, 2)
unfolding run_on_existing_session run_attempts try_once work_and_commit recover notify_conflict
existing_run = refl

owned_run : run_on_owned_sessions stone work listener factory 3 0 ≡ (ok 41, 2)
unfolding run_on_owned_sessions run_attempts with_session close_session exit_session exit_policy
    try_once work_and_commit recover notify_conflict
owned_run = refl

owned_sessions_returned_example :
    (k : ℕ) × (v : ℕ) × (k < 3)
    × Rounds stone work listener
        (λ n. with_session stone factory manual (try_once stone work listener 3 n))
        k
        1
        0
        v
    × (s : ℕ) × (v' : ℕ) × (u : ℕ) × Commits stone work listener s v' 41 u
    × (◌≡◌ {A = Result Fault (Unit {0}) × ℕ} (ok tt, u) (ok tt, 2))
owned_sessions_returned_example =
    owned_sessions_returned stone work listener factory 3 0 2 41 owned_run
