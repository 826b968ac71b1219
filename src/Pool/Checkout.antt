-- ===== src/Pool/Checkout.antt =====
-- `acquire` of `GemStoneSessionPool`.
use gemstone_py.Prelude.{
  ℕ, zero, suc, ◌+◌, ◌-◌, Option, none, some, [], ◌∷◌, leb, ltb, if◌then◌else◌,
}
use gemstone_py.Prelude.Exec.{Result, ok, err}
use gemstone_py.Pool.{
  Session, wait_timeout, Env, session_acquired, acquire_timed_out, PoolError, pool_closed,
  timed_out, blocked, out_of_fuel, call_failed,
}
use gemstone_py.Pool.Provider.{
  now, ready, refused, raised, prepare_session_for_checkout, create_session,
}
use gemstone_py.Pool.Methods.{Pool, emit, count, discard_session}

module _ (env : Env) where
  -- One attempt to hand out a session: it is handed out, an exception goes through, or the session
  -- was discarded and the loop goes on.
  pub data Attempt : Type 0 where
    handed : Session → Pool env → Attempt
    failed : PoolError → Pool env → Attempt
    again : Pool env → Attempt

  -- The block `if ready: ... return session`, with the wait counted.
  unfoldable pub hand_out : ℕ → Session → Pool env → Pool env
  hand_out started_at s p =
      let (t, l) = now env p.locals in
      emit env session_acquired (some s.ident) none (
        count env
          (λ c. record c { acquire_wait_seconds = c.acquire_wait_seconds + (t - started_at) })
          (record p { locals = l }))

  -- A session that the caller has taken from the queue or created.
  unfoldable pub attempt : ℕ → Session → Pool env → Attempt
  attempt started_at s p =
      let (checkout, l) = prepare_session_for_checkout env p.config s p.locals in
      elim checkout [
        | ready s' ↦ handed s' (hand_out started_at s' (record p { locals = l }))
        | refused s' reason ↦ again (discard_session env s' reason (record p { locals = l }))
        | raised e ↦ failed (call_failed e) (record p { locals = l })
      ]

  -- `should_create`: the slot is reserved first, and given back if the creation raises.
  unfoldable pub attempt_create : ℕ → Pool env → Attempt
  attempt_create started_at p =
      let (made, l) = create_session env p.locals in
      elim made [
        | err e ↦ failed (call_failed e) (record p { locals = l })
        | ok s ↦ attempt started_at s (record p { locals = l; created = p.created + 1 })
      ]

  unfoldable pub time_out : Pool env → Pool env
  time_out p =
      emit env acquire_timed_out none (some wait_timeout)
        (count env (λ c. record c { timeout_calls = c.timeout_calls + 1 }) p)

  -- `self._available.get(timeout=remaining)`. `others` is what the other threads do to the pool
  -- during the wait.
  unfoldable pub attempt_wait : (Pool env → Pool env) → ℕ → Option ℕ → Pool env → Attempt
  attempt_wait others started_at deadline p =
      let q = others p in
      elim q.available [
        | s ∷ rest ↦ attempt started_at s (record q { available = rest })
        | [] ↦ elim deadline [ none ↦ failed blocked q | some d ↦ failed timed_out (time_out q) ]
      ]

  -- `remaining <= 0` is tested before the wait.
  unfoldable pub attempt_full : (Pool env → Pool env) → ℕ → Option ℕ → Pool env → Attempt
  attempt_full others started_at deadline p = elim deadline [
    | none ↦ attempt_wait others started_at none p
    | some d ↦
        let (t, l) = now env p.locals in
        if leb d t
        then failed timed_out (time_out (record p { locals = l }))
        else attempt_wait others started_at (some d) (record p { locals = l })
  ]

  -- One round of the `while True` loop.
  unfoldable pub acquire_round : (Pool env → Pool env) → ℕ → Option ℕ → Pool env → Attempt
  acquire_round others started_at deadline p = elim p.available [
    | s ∷ rest ↦ attempt started_at s (record p { available = rest })
    | [] ↦
        if p.closed
        then failed pool_closed p
        else if ltb p.created p.config.maxsize
        then attempt_create started_at p
        else attempt_full others started_at deadline p
  ]

  unfoldable pub acquire_loop :
      (Pool env → Pool env) → ℕ → Option ℕ → ℕ → Pool env → Result PoolError Session × Pool env
  acquire_loop others started_at deadline zero p = (err out_of_fuel, p)
  acquire_loop others started_at deadline (suc fuel) p =
      elim (acquire_round others started_at deadline p) [
        | handed s q ↦ (ok s, q)
        | failed e q ↦ (err e, q)
        | again q ↦ acquire_loop others started_at deadline fuel q
      ]

  -- `self._acquire_timeout if timeout is None else timeout`
  abbrev pub or_default : Option ℕ → Option ℕ → Option ℕ
  or_default none default = default
  or_default (some t) default = some t

  unfoldable pub acquire :
      (Pool env → Pool env) → ℕ → Option ℕ → Pool env → Result PoolError Session × Pool env
  acquire others fuel timeout p =
      let (started_at, l1) = now env p.locals in
      let p1 =
        count env (λ c. record c { acquire_calls = c.acquire_calls + 1 })
          (record p { locals = l1 }) in
      elim (or_default timeout p1.config.acquire_timeout) [
        | none ↦
            if p1.closed then (err pool_closed, p1) else acquire_loop others started_at none fuel p1
        | some limit ↦
            let (t, l2) = now env p1.locals in
            let p2 : Pool env = record p1 { locals = l2 } in
            if p2.closed
            then (err pool_closed, p2)
            else acquire_loop others started_at (some (t + limit)) fuel p2
      ]
