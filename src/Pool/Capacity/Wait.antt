-- ===== src/Pool/Capacity/Wait.antt =====
-- The capacity of the pool during `acquire`.
use gemstone_py.Prelude.{
  ℕ, zero, suc, ◌+◌, ◌<◌, ◌≡◌, refl, ap, Option, none, some, Bool, true, false, List, [], ◌∷◌,
  length, arith, ltb, leb, if◌then◌else◌, inl, inr,
}
use gemstone_py.Prelude.Exec.{Result, ok, err, Result-cases}
use gemstone_py.Pool.{Session, Env, PoolError, call_failed, pool_closed, timed_out, blocked}
use gemstone_py.Pool.Provider.{
  Local, now, Checkout, ready, refused, raised, prepare_session_for_checkout, create_session,
}
use gemstone_py.Pool.Methods.{Pool, count, discard_session}
use gemstone_py.Pool.Checkout.{
  Attempt, handed, failed, again, hand_out, attempt, attempt_create, time_out, attempt_wait,
  attempt_full, acquire_round, acquire_loop, acquire, or_default,
}
use gemstone_py.Pool.Capacity.{Holds, Holds-less, Holds-locals, discard_session-Holds}

module _ {env : Env} (k : ℕ) where
  abbrev AttemptHolds : Attempt env → Type 0
  AttemptHolds (handed s q) = Holds (suc k) q
  AttemptHolds (failed e q) = Holds k q
  AttemptHolds (again q) = Holds k q

  -- What a caller of `acquire` holds after it.
  abbrev pub AcquireHolds : Result PoolError Session × Pool env → Type 0
  AcquireHolds (ok s, q) = Holds (suc k) q
  AcquireHolds (err e, q) = Holds k q

  hand_out-Holds :
      (started_at : ℕ) (s : Session) (p : Pool env)
      → Holds (suc k) p
      → Holds (suc k) (hand_out env started_at s p)
  unfolding hand_out
  hand_out-Holds started_at s p h = record { counted = h.counted; bounded = h.bounded }

  after_checkout :
      (started_at : ℕ) (c : Checkout) (p : Pool env)
      → Holds (suc k) p
      → AttemptHolds (elim c [
        | ready s' ↦ handed s' (hand_out env started_at s' p)
        | refused s' reason ↦ again (discard_session env s' reason p)
        | raised e ↦ failed (call_failed e) p
      ])
  after_checkout started_at (ready s) p h = hand_out-Holds started_at s p h
  after_checkout started_at (refused s r) p h = discard_session-Holds k s r p h
  after_checkout started_at (raised e) p h = Holds-less h

  attempt-Holds :
      (started_at : ℕ) (s : Session) (p : Pool env)
      → Holds (suc k) p
      → AttemptHolds (attempt env started_at s p)
  unfolding attempt
  attempt-Holds started_at s p h =
      let (c, l) = prepare_session_for_checkout env p.config s p.locals in
      after_checkout started_at c (record p { locals = l }) (Holds-locals l h)

  attempt_create-Holds :
      (started_at : ℕ) (p : Pool env)
      → Holds k p
      → p.created < p.config.maxsize
      → AttemptHolds (attempt_create env started_at p)
  unfolding attempt_create
  attempt_create-Holds started_at p h room =
      let (made, l) = create_session env p.locals in
      elim (Result-cases made) [
        | inl (s, e) ↦
            rw (e, attempt_create)
              (attempt-Holds started_at s _
                (record { counted = omega (arith, h.counted); bounded = omega arith }))
        | inr (x, e) ↦ rw (e, attempt_create) (Holds-locals l h)
      ]

  time_out-Holds : (p : Pool env) → Holds k p → Holds k (time_out env p)
  unfolding time_out
  time_out-Holds p h = record { counted = h.counted; bounded = h.bounded }

  take_top :
      (s : Session) (rest : List Session) (q : Pool env)
      → q.available ≡ s ∷ rest
      → Holds k q
      → Holds (suc k) (record q { available = rest })
  take_top s rest q e h = record {
    counted = omega (arith, h.counted, ap length e);
    bounded = h.bounded;
  }

  after_wait :
      (started_at : ℕ) (deadline : Option ℕ) (xs : List Session) (q : Pool env)
      → q.available ≡ xs
      → Holds k q
      → AttemptHolds (elim xs [
        | s ∷ rest ↦ attempt env started_at s (record q { available = rest })
        | [] ↦ elim deadline [
          | none ↦ failed blocked q
          | some d ↦ failed timed_out (time_out env q)
        ]
      ])
  after_wait started_at deadline (s ∷ rest) q e h =
      attempt-Holds started_at s (record q { available = rest }) (take_top s rest q e h)
  after_wait started_at none [] q e h = h
  after_wait started_at (some d) [] q e h = time_out-Holds q h

  if-AttemptHolds :
      (b : Bool) (x y : Attempt env)
      → (b ≡ true → AttemptHolds x)
      → (b ≡ false → AttemptHolds y)
      → AttemptHolds (if b then x else y)
  if-AttemptHolds true x y hx hy = hx refl
  if-AttemptHolds false x y hx hy = hy refl

  module _ (others : Pool env → Pool env)
      (rely : (q : Pool env) → Holds k q → Holds k (others q)) where
    attempt_wait-Holds :
        (started_at : ℕ) (deadline : Option ℕ) (p : Pool env)
        → Holds k p
        → AttemptHolds (attempt_wait env others started_at deadline p)
    unfolding attempt_wait
    attempt_wait-Holds started_at deadline p h =
        after_wait started_at deadline (others p).available (others p) refl (rely p h)

    attempt_full-Holds :
        (started_at : ℕ) (deadline : Option ℕ) (p : Pool env)
        → Holds k p
        → AttemptHolds (attempt_full env others started_at deadline p)
    unfolding attempt_full
    attempt_full-Holds started_at none p h = attempt_wait-Holds started_at none p h
    attempt_full-Holds started_at (some d) p h =
        let (t, l) = now env p.locals in
        if-AttemptHolds (leb d t) _ _ (λ _. time_out-Holds _ (Holds-locals l h))
          (λ _. attempt_wait-Holds started_at (some d) _ (Holds-locals l h))

    start_round :
        (started_at : ℕ) (deadline : Option ℕ) (xs : List Session) (p : Pool env)
        → p.available ≡ xs
        → Holds k p
        → AttemptHolds (elim xs [
          | s ∷ rest ↦ attempt env started_at s (record p { available = rest })
          | [] ↦
              if p.closed
              then failed pool_closed p
              else if ltb p.created p.config.maxsize
              then attempt_create env started_at p
              else attempt_full env others started_at deadline p
        ])
    start_round started_at deadline (s ∷ rest) p e h =
        attempt-Holds started_at s (record p { available = rest }) (take_top s rest p e h)
    start_round started_at deadline [] p e h =
        if-AttemptHolds p.closed _ _ (λ _. h)
          (λ _.
            if-AttemptHolds (ltb p.created p.config.maxsize) _ _
              (λ room. attempt_create-Holds started_at p h (ground arith))
              (λ _. attempt_full-Holds started_at deadline p h))

    acquire_round-Holds :
        (started_at : ℕ) (deadline : Option ℕ) (p : Pool env)
        → Holds k p
        → AttemptHolds (acquire_round env others started_at deadline p)
    unfolding acquire_round
    acquire_round-Holds started_at deadline p h =
        start_round started_at deadline p.available p refl h

    next_round :
        (started_at : ℕ) (deadline : Option ℕ) (fuel : ℕ)
        → ((q : Pool env)
            → Holds k q
            → AcquireHolds (acquire_loop env others started_at deadline fuel q))
        → (a : Attempt env) → AttemptHolds a
        → AcquireHolds (elim a [
          | handed s q ↦ (ok s, q)
          | failed e q ↦ (err e, q)
          | again q ↦ acquire_loop env others started_at deadline fuel q
        ])
    next_round started_at deadline fuel rec (handed s q) h = h
    next_round started_at deadline fuel rec (failed e q) h = h
    next_round started_at deadline fuel rec (again q) h = rec q h

    acquire_loop-Holds :
        (started_at : ℕ) (deadline : Option ℕ) (fuel : ℕ) (p : Pool env)
        → Holds k p
        → AcquireHolds (acquire_loop env others started_at deadline fuel p)
    unfolding acquire_loop
    acquire_loop-Holds started_at deadline zero p h = h
    acquire_loop-Holds started_at deadline (suc fuel) p h =
        next_round started_at deadline fuel (acquire_loop-Holds started_at deadline fuel)
          (acquire_round env others started_at deadline p)
          (acquire_round-Holds started_at deadline p h)

    if-AcquireHolds :
        (b : Bool) (x y : Result PoolError Session × Pool env)
        → AcquireHolds x
        → AcquireHolds y
        → AcquireHolds (if b then x else y)
    if-AcquireHolds true x y hx hy = hx
    if-AcquireHolds false x y hx hy = hy

    -- Whatever `acquire` meets on its way (sessions that fail their checks, a creation that
    -- raises, a wait in which the other threads keep the capacity), the pool is within its
    -- capacity after it, with one session more in the caller's hands if it returned one.
    pub acquire-Holds :
        (fuel : ℕ) (timeout : Option ℕ) (p : Pool env)
        → Holds k p
        → AcquireHolds (acquire env others fuel timeout p)
    unfolding acquire
    acquire-Holds fuel timeout p h = with_limit (or_default env timeout p.config.acquire_timeout)
      where
        started : ℕ × Local env
        started = now env p.locals

        p1 : Pool env
        p1 =
            count env (λ c. record c { acquire_calls = c.acquire_calls + 1 })
              (record p { locals = started.1 })

        h1 : Holds k p1
        h1 = record { counted = h.counted; bounded = h.bounded }

        with_limit :
            (limit : Option ℕ)
            → AcquireHolds (elim limit [
              | none ↦
                  if p1.closed
                  then (err pool_closed, p1)
                  else acquire_loop env others started.0 none fuel p1
              | some limit ↦
                  let (t, l2) = now env p1.locals in
                  let p2 : Pool env = record p1 { locals = l2 } in
                  if p2.closed
                  then (err pool_closed, p2)
                  else acquire_loop env others started.0 (some (t + limit)) fuel p2
            ])
        with_limit none =
            if-AcquireHolds p1.closed _ _ h1 (acquire_loop-Holds started.0 none fuel p1 h1)
        with_limit (some limit) =
            let (t, l2) = now env p1.locals in
            if-AcquireHolds p1.closed _ _ (Holds-locals l2 h1)
              (acquire_loop-Holds started.0 (some (t + limit)) fuel _ (Holds-locals l2 h1))
