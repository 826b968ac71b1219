-- ===== src/Scope/Tests.antt =====
-- A request over a stone whose world is the number of its commits, and whose third commit conflicts.
use gemstone_py.Prelude.{
  ℕ, ◌+◌, ◌≡◌, refl, ◌⊎◌, none, some, true, false, inr, [], ◌∷◌, arith, ltb, if◌then◌else◌,
}
use gemstone_py.Prelude.Exec.{ok, err}
use gemstone_py.Session.{Fault, commit_conflict, SessionApi}
use gemstone_py.Scope.{commit_on_success, abort_done, abort_failed}
use gemstone_py.Scope.Transaction.{outcome, finalize, new_scope}
use gemstone_py.Scope.Transaction.Outcomes.{IsHonest, finalize-IsHonest, finalize_failed}
use gemstone_py.Scope.Request.{
  Provider, RequestConfig, RequestState, new_request, open_session, request_session,
}
use gemstone_py.Scope.Request.Lifecycle.{finalizes, request_given_back_once}

abbrev stone : SessionApi
stone = record {
  World = ℕ;
  Session = ℕ;
  commit = λ s w. if ltb w 2 then (ok tt, w + 1) else (err (commit_conflict [] []), w);
  abort = λ s w. (ok tt, w);
  login = λ s w. (ok tt, w);
  logout = λ s w. (ok tt, w);
}

abbrev provider : Provider stone
provider = record { acquire = λ w. (ok 4, w); release = λ s discard clean w. (ok tt, w) }

abbrev config : RequestConfig stone
config = record {
  session_provider = some provider;
  session_factory = none;
  transaction_policy = commit_on_success;
  server_error_status = 500;
}

abbrev opened : RequestState stone
opened = record { world = 1; active = some 4; finalized = false; provider_owned = true }

finalize-IsHonest_example :
    IsHonest stone 4 (finalize stone 4 commit_on_success 500 none (some 200) (new_scope stone 2)).1
finalize-IsHonest_example = finalize-IsHonest stone 4 commit_on_success 500 none (some 200) 2

finalize_failed_example :
    let (r, st) = finalize stone 4 commit_on_success 500 none (some 503) (new_scope stone 1) in
    (st.world ≡ 1)
    × (r ≡ ok st.last_outcome)
    × ((((stone.abort 4 1).0 ≡ ok tt) × (st.last_outcome ≡ outcome abort_done true false))
        ⊎ ((e : Fault) × ((stone.abort 4 1).0 ≡ err e)
            × (st.last_outcome ≡ outcome abort_failed false true)))
finalize_failed_example =
    finalize_failed stone 4 commit_on_success 500 none (some 503) 1 (inr (503, refl, omega arith))

session_opened : request_session stone config (new_request stone 1) ≡ (ok 4, opened)
unfolding request_session open_session
session_opened = refl

request_given_back_once_example :
    let scope = (finalize stone 4 commit_on_success 500 none (some 200) (new_scope stone 1)).1 in
    IsHonest stone 4 scope
    × ((finalizes stone config ((none, some 200) ∷ (none, none) ∷ []) opened).world
        ≡ (provider.release 4 scope.last_outcome.discard scope.last_outcome.clean scope.world).1)
request_given_back_once_example =
    request_given_back_once stone config 1 opened 4 none (some 200) ((none, none) ∷ [])
      session_opened
