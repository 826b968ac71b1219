-- ===== src/Pool/Upkeep.antt =====
-- `warm`, `sweep_idle` and `lease` of `GemStoneSessionPool`.
use gemstone_py.Prelude.{
  ℕ, zero, suc, ◌+◌, min, Option, none, some, Bool, false, not, List, [], ◌∷◌, leb, ltb,
  if◌then◌else◌,
}
use gemstone_py.Prelude.Exec.{Result, ok, err}
use gemstone_py.Pool.{
  Session, idle_timeout, unhealthy, provider_closed, queue_full, Env, session_warmed, idle_sweep,
  PoolError, pool_closed, out_of_fuel, call_failed,
}
use gemstone_py.Pool.Provider.{create_session, session_is_healthy, session_idle_timeout_reason}
use gemstone_py.Pool.Methods.{Pool, emit, count, put_nowait, discard_session, release}
use gemstone_py.Pool.Checkout.{acquire}

module _ (env : Env) where
  -- One round of the loop of `warm`: it ends the loop, warms one session, or discards one and goes on.
  pub data Warmed : Type 0 where
    stop : Result PoolError (Unit {0}) → Pool env → Warmed
    warmed_one : Pool env → Warmed
    discarded : Pool env → Warmed

  unfoldable pub warm_session : Session → Pool env → Warmed
  warm_session s p =
      let (healthy, s1, l) = session_is_healthy env p.config s p.locals in
      let p1 : Pool env = record p { locals = l } in
      if not healthy
      then discarded (discard_session env s1 unhealthy p1)
      else (let (freed, w) = env.unclaim s1 l.world in
          let p2 : Pool env = record p1 { locals = record l { world = w } } in
          elim freed [
            | err e ↦ stop (err (call_failed e)) p2
            | ok _ ↦ elim (put_nowait env s1 p2) [
              | none ↦ stop (ok tt) (discard_session env s1 queue_full p2)
              | some p3 ↦ warmed_one (
                  emit env session_warmed (some s1.ident) none
                    (count env (λ c. record c { warmed_sessions = c.warmed_sessions + 1 }) p3))
            ]
          ])

  unfoldable pub warm_round : Pool env → Warmed
  warm_round p =
      if p.closed
      then stop (err pool_closed) p
      else if leb p.config.maxsize p.created
      then stop (ok tt) p
      else (let (made, l) = create_session env p.locals in
          elim made [
            | err e ↦ stop (err (call_failed e)) (record p { locals = l })
            | ok s ↦ warm_session s (record p { locals = l; created = p.created + 1 })
          ])

  abbrev pub warm_result : ℕ → Result PoolError (Unit {0}) → Result PoolError ℕ
  warm_result n (ok _) = ok n
  warm_result n (err e) = err e

  unfoldable pub warm_loop : ℕ → ℕ → ℕ → Pool env → Result PoolError ℕ × Pool env
  warm_loop zero target warmed p =
      if ltb warmed target then (err out_of_fuel, p) else (ok warmed, p)
  warm_loop (suc fuel) target warmed p =
      if not (ltb warmed target) then (ok warmed, p) else elim (warm_round p) [
        | stop r q ↦ (warm_result warmed r, q)
        | warmed_one q ↦ warm_loop fuel target (warmed + 1) q
        | discarded q ↦ warm_loop fuel target warmed q
      ]

  -- A negative `count` is 0.
  abbrev pub warm_target : Option ℕ → ℕ → ℕ
  warm_target none maxsize = maxsize
  warm_target (some count) maxsize = min count maxsize

  unfoldable pub warm : ℕ → Option ℕ → Pool env → Result PoolError ℕ × Pool env
  warm fuel n p =
      warm_loop fuel (warm_target n p.config.maxsize) 0
        (count env (λ c. record c { warmup_calls = c.warmup_calls + 1 }) p)

  -- The first loop of `sweep_idle`: the sessions to keep, how many went, and the pool.
  unfoldable pub sweep_drained : List Session → Pool env → List Session × ℕ × Pool env
  sweep_drained [] p = ([], 0, p)
  sweep_drained (s ∷ ss) p =
      if p.closed
      then (let (keep, swept, q) = sweep_drained ss (discard_session env s provider_closed p) in
          (keep, swept + 1, q))
      else if not (ltb p.config.minsize p.created)
      then (let (keep, swept, q) = sweep_drained ss p in (s ∷ keep, swept, q))
      else (let (reason, l) = session_idle_timeout_reason env p.config s p.locals in
          elim reason [
            | none ↦
                let (keep, swept, q) = sweep_drained ss (record p { locals = l }) in
                (s ∷ keep, swept, q)
            | some _ ↦
                let (keep, swept, q) =
                  sweep_drained ss (discard_session env s idle_timeout (record p { locals = l })) in
                (keep, swept + 1, q)
          ])

  -- The second loop: the kept sessions go back, in the order in which they were drained.
  unfoldable pub put_back : List Session → Pool env → ℕ × Pool env
  put_back [] p = (0, p)
  put_back (s ∷ ss) p = elim (put_nowait env s p) [
    | some q ↦ put_back ss q
    | none ↦ let (swept, q) = put_back ss (discard_session env s queue_full p) in (swept + 1, q)
  ]

  -- The body of `sweep_idle` when idle sessions time out.
  unfoldable pub sweep_all : Pool env → ℕ × Pool env
  sweep_all p =
      let (keep, swept, q) = sweep_drained p.available (record p { available = [] }) in
      let (lost, q') = put_back keep q in
      (
        swept + lost,
        if ltb 0 (swept + lost) then emit env idle_sweep none (some idle_timeout) q' else q',
      )

  unfoldable pub sweep_idle : Pool env → ℕ × Pool env
  sweep_idle p = elim p.config.idle_timeout_seconds [ none ↦ (0, p) | some _ ↦ sweep_all p ]

  -- The flags that `lease` computes when the body raises: whether the session is to be discarded,
  -- and whether it is clean.
  unfoldable pub abort_after_failure : Session → Pool env → (Bool × Bool) × Pool env
  abort_after_failure s p =
      let (done, w) = env.abort s p.locals.world in
      ((not done, done), record p { locals = record p.locals { world = w } })

  module _ {A : Type 0} where
    -- The `finally` of `lease`: an exception of `release` replaces what the body gave.
    unfoldable pub end_lease :
        Session → Bool → Bool → Result PoolError A → Pool env → Result PoolError A × Pool env
    end_lease s discard clean r p =
        let (given, q) = release env (some s) discard clean p in
        elim given [ ok _ ↦ (r, q) | err e ↦ (err e, q) ]

    -- `with pool.lease() as session: body(session)`
    unfoldable pub lease :
        (Pool env → Pool env)
        → ℕ
        → (Session → Pool env → Result PoolError A × Pool env)
        → Pool env
        → Result PoolError A × Pool env
    lease others fuel body p =
        let (got, p1) = acquire env others fuel none p in
        elim got [
          | err e ↦ (err e, p1)
          | ok s ↦
              let (r, p2) = body s p1 in
              elim r [
                | ok a ↦ end_lease s false false (ok a) p2
                | err e ↦
                    let ((discard, clean), p3) = abort_after_failure s p2 in
                    end_lease s discard clean (err e) p3
              ]
        ]
