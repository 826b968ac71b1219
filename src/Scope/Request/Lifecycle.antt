-- ===== src/Scope/Request/Lifecycle.antt =====
-- The life of one request's session: `session`, and `finalize`.
use gemstone_py.Prelude.{
  ℕ, ◌≡◌, refl, ap, ◌∙◌, inl, inr, Option, none, some, Bool, true, false, List, [], ◌∷◌,
  Option-cases, arith,
}
use gemstone_py.Prelude.Exec.{Result, ok, Result-cases}
use gemstone_py.Session.{Fault, SessionApi}
use gemstone_py.Scope.{TransactionFinalization, already_finalized}
use gemstone_py.Scope.Transaction.{outcome, ScopeState, finalize, new_scope}
use gemstone_py.Scope.Transaction.Outcomes.{IsHonest, finalize-IsHonest}
use gemstone_py.Scope.Request.{
  Provider, RequestConfig, RequestState, new_request, open_session, request_session,
  finalize_request, close_request, give_back,
}

module _ (api : SessionApi) where
  open api use {World, Session, commit, abort, logout}

  found :
      (config : RequestConfig api) (st : RequestState api) (s : Session)
      → st.active ≡ some s
      → request_session api config st ≡ (ok s, st)
  unfolding request_session
  found config st s h = ground arith

  active_after :
      (config : RequestConfig api) (st st' : RequestState api) (s : Session)
      → request_session api config st ≡ (ok s, st')
      → st'.active ≡ some s
  unfolding request_session
  active_after config st st' s h = ground arith

  -- Once a call of `session` has returned a session, the next call returns it too and changes
  -- nothing.
  request_session_again :
      (config : RequestConfig api) (st st' : RequestState api) (s : Session)
      → request_session api config st ≡ (ok s, st')
      → request_session api config st' ≡ (ok s, st')
  unfolding request_session
  request_session_again config st st' s h = found config st' s (active_after config st st' s h)

  finalized_already :
      (config : RequestConfig api) (exc : Option Fault) (status : Option ℕ) (st : RequestState api)
      → st.finalized ≡ true
      → finalize_request api config exc status st ≡ (ok (outcome already_finalized true false), st)
  unfolding finalize_request
  finalized_already config exc status st h = ground arith

  finalized_after :
      (config : RequestConfig api) (exc : Option Fault) (status : Option ℕ) (st : RequestState api)
      → (finalize_request api config exc status st).1.finalized ≡ true
  unfolding finalize_request close_request
  finalized_after config exc status st = ground arith

  world-close_request :
      (config : RequestConfig api) (st : RequestState api) (s : Session)
      (r : Result Fault TransactionFinalization) (scope : ScopeState api)
      → (close_request api config st s (r, scope)).1.world
        ≡ (give_back api config st.provider_owned s scope.last_outcome scope.world).1
  unfolding close_request
  world-close_request config st s r scope =
      elim (Result-cases
        (give_back api config st.provider_owned s scope.last_outcome scope.world).0) [
          | inl (a, e) ↦ rw (e, close_request)
          | inr (x, e) ↦ rw (e, close_request)
        ]

  finalize_request-open :
      (config : RequestConfig api) (st : RequestState api) (s : Session) (exc : Option Fault)
      (status : Option ℕ)
      → st.finalized ≡ false
      → st.active ≡ some s
      → finalize_request api config exc status st
        ≡ close_request api config
            (record st { finalized = true })
            s
            (finalize api s config.transaction_policy config.server_error_status exc status
              (new_scope api st.world))
  unfolding finalize_request
  finalize_request-open config st s exc status fresh active = ground arith

  close_request-world :
      (config : RequestConfig api) (st : RequestState api) (s : Session) (exc : Option Fault)
      (status : Option ℕ)
      → st.finalized ≡ false
      → st.active ≡ some s
      → let scope =
          (finalize api s config.transaction_policy config.server_error_status exc status
            (new_scope api st.world)).1 in
        (finalize_request api config exc status st).1.world
        ≡ (give_back api config st.provider_owned s scope.last_outcome scope.world).1
  close_request-world config st s exc status fresh active =
      let (r, scope) =
        finalize api s config.transaction_policy config.server_error_status exc status
          (new_scope api st.world) in
      ap (λ x. x.1.world) (finalize_request-open config st s exc status fresh active)
      ∙ world-close_request config (record st { finalized = true }) s r scope

  -- Whatever `finalize` returned or raised, a second `finalize` does nothing: it makes no call, so
  -- that a session is given back once.
  finalize_request_twice :
      (config : RequestConfig api) (exc exc' : Option Fault) (status status' : Option ℕ)
      (st : RequestState api)
      → let st' = (finalize_request api config exc status st).1 in
        finalize_request api config exc' status' st'
        ≡ (ok (outcome already_finalized true false), st')
  finalize_request_twice config exc exc' status status' st =
      finalized_already config exc' status' (finalize_request api config exc status st).1
        (finalized_after config exc status st)

  abbrev has_provider : Option (Provider api) → Bool
  has_provider none = false
  has_provider (some provider) = true

  -- The world behind the end of a session that was opened by `session`: its provider has it back, with
  -- the two flags, or it is logged out.
  abbrev pub handed_back : Option (Provider api) → Session → (discard clean : Bool) → World → World
  handed_back (some provider) s discard clean w = (provider.release s discard clean w).1
  handed_back none s discard clean w = (logout s w).1

  opened :
      (config : RequestConfig api) (w : World) (st : RequestState api) (s : Session)
      → request_session api config (new_request api w) ≡ (ok s, st)
      → (st.finalized ≡ false) × (st.provider_owned ≡ has_provider config.session_provider)
  unfolding request_session open_session
  opened config w st s h = (ground arith, ground arith)

  give_back-handed_back :
      (config : RequestConfig api) (s : Session) (o : TransactionFinalization) (w : World)
      → (give_back api config (has_provider config.session_provider) s o w).1
        ≡ handed_back config.session_provider s o.discard o.clean w
  unfolding give_back
  give_back-handed_back config s o w = elim (Option-cases config.session_provider) [
    | inl e ↦ rw e
    | inr (provider, e) ↦ rw e
  ]

  -- `finalize`, once more for each entry.
  abbrev pub finalizes :
      RequestConfig api → List (Option Fault × Option ℕ) → RequestState api → RequestState api
  finalizes config [] st = st
  finalizes config ((exc, status) ∷ calls) st =
      finalizes config calls (finalize_request api config exc status st).1

  finalizes-done :
      (config : RequestConfig api) (calls : List (Option Fault × Option ℕ)) (st : RequestState api)
      → st.finalized ≡ true
      → finalizes config calls st ≡ st
  finalizes-done config [] st h = refl
  finalizes-done config ((exc, status) ∷ calls) st h =
      let same = ap (λ x. x.1) (finalized_already config exc status st h) in
      finalizes-done config calls _ (ap (λ t. t.finalized) same ∙ h) ∙ same

  -- However often a request finalizes behind its first call of session, its session is given
  -- back once: to the provider, if there is one, and else by its logout, in the world that the
  -- first finalize of the transaction left, and with the flags of its outcome, which are true
  -- of the session.
  pub request_given_back_once :
      (config : RequestConfig api) (w : World) (st : RequestState api) (s : Session)
      (exc : Option Fault) (status : Option ℕ) (calls : List (Option Fault × Option ℕ))
      → request_session api config (new_request api w) ≡ (ok s, st)
      → let scope =
          (finalize api s config.transaction_policy config.server_error_status exc status
            (new_scope api st.world)).1 in
        IsHonest api s scope
        × ((finalizes config ((exc, status) ∷ calls) st).world
            ≡ handed_back config.session_provider s scope.last_outcome.discard
                scope.last_outcome.clean scope.world)
  request_given_back_once config w st s exc status calls h =
      let (fresh, owner) = opened config w st s h in
      let scope =
        (finalize api s config.transaction_policy config.server_error_status exc status
          (new_scope api st.world)).1 in
      (
        finalize-IsHonest api s config.transaction_policy config.server_error_status exc status
            st.world,
        ap (λ t. t.world)
              (finalizes-done config calls (finalize_request api config exc status st).1
                (finalized_after config exc status st))
            ∙ close_request-world config st s exc status fresh
                (active_after config (new_request api w) st s h)
            ∙ ap (λ b. (give_back api config b s scope.last_outcome scope.world).1) owner
            ∙ give_back-handed_back config s scope.last_outcome scope.world,
      )
