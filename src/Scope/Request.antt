-- ===== src/Scope/Request.antt =====
-- `RequestScope` of gemstone_py/web_core.py.
pub mod Lifecycle
use gemstone_py.Prelude.{ℕ, Option, none, some, Bool, true, false, ◌&&◌, if◌then◌else◌}
use gemstone_py.Prelude.Action.{Action, ◌>>=◌, ◌>>◌, pure}
use gemstone_py.Prelude.Exec.{Result, ok, err}
use gemstone_py.Session.{Fault, runtime_error, SessionApi}
use gemstone_py.Scope.{TransactionPolicy, TransactionFinalization, none_done, already_finalized}
use gemstone_py.Scope.Transaction.{outcome, ScopeState, new_scope, finalize}

module _ (api : SessionApi) where
  open api use {World, Session, login, logout}

  -- The protocol `SessionProvider`.
  pub record Provider : Type 0 where
    pub acquire : Action World Fault Session
    pub release : Session → Bool → Bool → Action World Fault (Unit {0})

  -- The arguments of `__init__`. `session_factory` has its keyword arguments applied.
  pub record RequestConfig : Type 0 where
    pub session_provider : Option Provider
    pub session_factory : Option (Action World Fault Session)
    pub transaction_policy : TransactionPolicy
    pub server_error_status : ℕ

  pub record RequestState : Type 0 where
    pub world : World
    pub active : Option Session
    pub finalized : Bool
    pub provider_owned : Bool

  abbrev pub new_request : World → RequestState
  new_request w = record { world = w; active = none; finalized = false; provider_owned = false }

  unfoldable pub create_session : Option (Action World Fault Session) → Action World Fault Session
  create_session none w = (err runtime_error, w)
  create_session (some factory) w = (factory >>= λ s. login s >> pure s) w

  unfoldable pub open_session : RequestConfig → Action RequestState Fault Session
  unfolding create_session
  open_session config st = elim config.session_provider [
    | some provider ↦
        let (r, w) = provider.acquire st.world in
        elim r [
          | ok s ↦ (ok s, record st { world = w; active = some s; provider_owned = true })
          | err e ↦ (err e, record st { world = w })
        ]
    | none ↦
        let (r, w) = create_session config.session_factory st.world in
        elim r [
          | ok s ↦ (ok s, record st { world = w; active = some s })
          | err e ↦ (err e, record st { world = w })
        ]
  ]

  -- The method `session`.
  unfoldable pub request_session : RequestConfig → Action RequestState Fault Session
  unfolding open_session
  request_session config st = elim st.active [ some s ↦ (ok s, st) | none ↦ open_session config st ]

  -- The `finally` of `finalize`: hand the session back, or log it out.
  unfoldable pub give_back :
      RequestConfig → Bool → Session → TransactionFinalization → Action World Fault (Unit {0})
  give_back config provider_owned s o w =
      if provider_owned
      then elim config.session_provider [
        | some provider ↦ provider.release s o.discard o.clean w
        | none ↦ logout s w
      ]
      else logout s w

  -- An exception of the `finally` replaces the result, and leaves the session in its attribute.
  unfoldable pub close_request :
      RequestConfig
      → RequestState
      → Session
      → Result Fault TransactionFinalization × ScopeState api
      → Result Fault TransactionFinalization × RequestState
  unfolding give_back
  close_request config st s (r, scope) =
      let (given, w) = give_back config st.provider_owned s scope.last_outcome scope.world in
      elim given [
        | ok _ ↦ (r, record st { world = w; active = none })
        | err e ↦ (err e, record st { world = w })
      ]

  unfoldable pub finalize_request :
      RequestConfig → Option Fault → Option ℕ → Action RequestState Fault TransactionFinalization
  unfolding close_request
  finalize_request config exc status st =
      if st.finalized then (ok (outcome already_finalized true false), st) else elim st.active [
        | none ↦ (ok (outcome none_done true false), record st { finalized = true })
        | some s ↦
            close_request config (record st { finalized = true }) s
              (finalize api s config.transaction_policy config.server_error_status exc status
                (new_scope api st.world))
      ]
