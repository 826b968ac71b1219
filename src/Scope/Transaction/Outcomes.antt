-- ===== src/Scope/Transaction/Outcomes.antt =====
-- What a finalized transaction says of the session.
use gemstone_py.Prelude.{
  ℕ, ◌≤◌, none, some, arith, ◌≡◌, refl, ◌⊎◌, inl, inr, Option, Bool, true, false, Bool-cases,
}
use gemstone_py.Prelude.Exec.{Result, ok, err, Result-cases}
use gemstone_py.Session.{Fault, SessionApi}
use gemstone_py.Scope.{
  TransactionPolicy, manual, commit_on_success, abort_on_exit, abort_done, abort_failed,
  request_failed,
}
use gemstone_py.Scope.Transaction.{
  outcome, ScopeState, finalize, new_scope, commit_scope, abort_scope, record_outcome,
  finalize_policy,
}

some_eq : {m n : ℕ} → ◌≡◌ {A = Option ℕ} (some m) (some n) → m ≡ n
some_eq h = cc

-- The handler raised, or its response is a server error.
abbrev pub Fails : Option Fault → Option ℕ → ℕ → Type 0
Fails exc status code = ((e : Fault) × (exc ≡ some e)) ⊎ ((n : ℕ) × (status ≡ some n) × (code ≤ n))

Fails-request_failed :
    (exc : Option Fault) (status : Option ℕ) (code : ℕ)
    → Fails exc status code
    → request_failed exc status code ≡ true
unfolding request_failed
Fails-request_failed (some e) status code h = refl
Fails-request_failed none status code (inl (e, h)) = cc
Fails-request_failed none none code (inr (n, h, l)) = cc
Fails-request_failed none (some m) code (inr (n, h, l)) = ground (arith, some_eq h)

module _ (api : SessionApi) where
  open api use {World, Session, commit, abort}

  -- The call that led to the world `w` was a commit or an abort of the session, and it succeeded.
  abbrev HasEnded : Session → World → Type 0
  HasEnded s w =
      ((v : World) × (commit s v ≡ (ok tt, w))) ⊎ ((v : World) × (abort s v ≡ (ok tt, w)))

  -- The call that led to the world `w` was an abort of the session, and it raised.
  abbrev HasFailed : Session → World → Type 0
  HasFailed s w = (v : World) × (e : Fault) × (abort s v ≡ (err e, w))

  -- `clean` says that the session has just ended its transaction, `discard` that it could not.
  pub record IsHonest (s : Session) (st : ScopeState api) : Type 0 where
    pub clean_ended : st.last_outcome.clean ≡ true → HasEnded s st.world
    pub discard_failed : st.last_outcome.discard ≡ true → HasFailed s st.world
    pub not_both : ¬ ((st.last_outcome.clean ≡ true) × (st.last_outcome.discard ≡ true))

  returned :
      (m : World → Result Fault (Unit {0}) × World) (w : World) (a : Unit {0})
      → (m w).0 ≡ ok a
      → m w ≡ (ok tt, (m w).1)
  returned m w a e = λ i. (e i, (m w).1)

  raised :
      (m : World → Result Fault (Unit {0}) × World) (w : World) (x : Fault)
      → (m w).0 ≡ err x
      → m w ≡ (err x, (m w).1)
  raised m w x e = λ i. (e i, (m w).1)

  commit_scope-IsHonest :
      (s : Session) (st : ScopeState api)
      → IsHonest s (record_outcome api (commit_scope api s st)).1
  unfolding commit_scope record_outcome
  commit_scope-IsHonest s st = elim (Result-cases (commit s st.world).0) [
    | inl (a, e) ↦
        rw (e, commit_scope, record_outcome)
          (record {
            clean_ended = λ h. inl (st.world, returned (commit s) st.world a e);
            discard_failed = λ h. cc;
            not_both = λ h. cc;
          })
    | inr (x, e) ↦
        let w = (commit s st.world).1 in
        elim (Result-cases (abort s w).0) [
          | inl (a, d) ↦
              rw (e, d, commit_scope, record_outcome)
                (record {
                  clean_ended = λ h. inr (w, returned (abort s) w a d);
                  discard_failed = λ h. cc;
                  not_both = λ h. cc;
                })
          | inr (y, d) ↦
              rw (e, d, commit_scope, record_outcome)
                (record {
                  clean_ended = λ h. cc;
                  discard_failed = λ h. (w, y, raised (abort s) w y d);
                  not_both = λ h. cc;
                })
        ]
  ]

  abort_scope-IsHonest :
      (s : Session) (raise_errors : Bool) (w : World)
      → IsHonest s (record_outcome api (abort_scope api s raise_errors (new_scope api w))).1
  unfolding abort_scope record_outcome
  abort_scope-IsHonest s raise_errors w = elim (Result-cases (abort s w).0) [
    | inl (a, e) ↦
        rw (e, abort_scope, record_outcome)
          (record {
            clean_ended = λ h. inr (w, returned (abort s) w a e);
            discard_failed = λ h. cc;
            not_both = λ h. cc;
          })
    | inr (x, e) ↦ elim (Bool-cases raise_errors) [
      | inl on ↦
          rw (e, on, abort_scope, record_outcome)
            (record { clean_ended = λ h. cc; discard_failed = λ h. cc; not_both = λ h. cc })
      | inr off ↦
          rw (e, off, abort_scope, record_outcome)
            (record {
              clean_ended = λ h. cc;
              discard_failed = λ h. (w, x, raised (abort s) w x e);
              not_both = λ h. cc;
            })
    ]
  ]

  policy-IsHonest :
      (s : Session) (policy : TransactionPolicy) (w : World)
      → IsHonest s (finalize_policy api s policy (new_scope api w)).1
  unfolding finalize_policy record_outcome
  policy-IsHonest s commit_on_success w = commit_scope-IsHonest s (new_scope api w)
  policy-IsHonest s abort_on_exit w = abort_scope-IsHonest s true w
  policy-IsHonest s manual w = record {
    clean_ended = λ h. cc;
    discard_failed = λ h. cc;
    not_both = λ h. cc;
  }

  -- However a request ends, under every policy and whatever the calls do: a scope that says `clean`
  -- has ended on a successful commit or abort of the session, one that says `discard` on an abort
  -- that raised, and none says both.
  pub finalize-IsHonest :
      (s : Session) (policy : TransactionPolicy) (server_error_status : ℕ) (exc : Option Fault)
      (status : Option ℕ) (w : World)
      → IsHonest s (finalize api s policy server_error_status exc status (new_scope api w)).1
  unfolding finalize
  finalize-IsHonest s policy code exc status w =
      elim (Bool-cases (request_failed exc status code)) [
        | inl failed ↦ rw (failed, finalize) (abort_scope-IsHonest s false w)
        | inr fine ↦ rw (fine, finalize) (policy-IsHonest s policy w)
      ]

  -- A request whose handler raised, or whose response has a status of server_error_status or
  -- above, never raises from finalize, whatever the policy: the world is that of one abort of
  -- the session, and the outcome is abort, or abort_failed if that call raised.
  pub finalize_failed :
      (s : Session) (policy : TransactionPolicy) (server_error_status : ℕ) (exc : Option Fault)
      (status : Option ℕ) (w : World)
      → Fails exc status server_error_status
      → let (r, st) = finalize api s policy server_error_status exc status (new_scope api w) in
        (st.world ≡ (abort s w).1)
        × (r ≡ ok st.last_outcome)
        × ((((abort s w).0 ≡ ok tt) × (st.last_outcome ≡ outcome abort_done true false))
            ⊎ ((e : Fault) × ((abort s w).0 ≡ err e)
                × (st.last_outcome ≡ outcome abort_failed false true)))
  unfolding finalize abort_scope record_outcome
  finalize_failed s policy code exc status w fails =
      let failed = Fails-request_failed exc status code fails in
      elim (Result-cases (abort s w).0) [
        | inl (a, e) ↦
            rw (failed, e, finalize, abort_scope, record_outcome) (refl, refl, inl (refl, refl))
        | inr (x, e) ↦
            rw (failed, e, finalize, abort_scope, record_outcome) (refl, refl, inr (x, refl, refl))
      ]
