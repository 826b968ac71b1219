-- ===== src/Pool/Capacity/Sweep.antt =====
-- The capacity of the pool during `sweep_idle`.
use gemstone_py.Prelude.{
  ℕ, suc, ◌+◌, Option, none, some, Bool, true, false, not, List, [], ◌∷◌, length, arith, ltb,
  if◌then◌else◌, Bool-cases, inl, inr,
}
use gemstone_py.Pool.{Session, Reason, Env, provider_closed, idle_timeout, queue_full}
use gemstone_py.Pool.Provider.{session_idle_timeout_reason}
use gemstone_py.Pool.Methods.{Pool, discard_session}
use gemstone_py.Pool.Upkeep.{sweep_drained, put_back, sweep_all, sweep_idle}
use gemstone_py.Pool.Capacity.{Holds, Holds-locals, discard_session-Holds}

module _ {env : Env} (k : ℕ) where
  put_back-Holds :
      (ss : List Session) (p : Pool env) → Holds (length ss + k) p → Holds k (put_back env ss p).1
  unfolding put_back
  put_back-Holds [] p h = omega arith
  put_back-Holds (s ∷ ss) p h = elim (Bool-cases (ltb (length p.available) p.config.maxsize)) [
    | inl room ↦
        rw (room, put_back)
          (put_back-Holds ss _ (record { counted = omega (arith, h.counted); bounded = h.bounded }))
    | inr full ↦
        rw (full, put_back)
          (put_back-Holds ss _ (discard_session-Holds (length ss + k) s queue_full p (omega arith)))
  ]

  abbrev SweepHolds : ℕ → List Session × ℕ × Pool env → Type 0
  SweepHolds m r = Holds (length r.0 + m) r.2

  if-SweepHolds :
      (m : ℕ) (b : Bool) (x y : List Session × ℕ × Pool env)
      → SweepHolds m x
      → SweepHolds m y
      → SweepHolds m (if b then x else y)
  if-SweepHolds m true x y hx hy = hx
  if-SweepHolds m false x y hx hy = hy

  module _ (s : Session) (ss : List Session) (m : ℕ)
      (rest : (q : Pool env) (n : ℕ)
        → Holds (length ss + n) q
        → SweepHolds n (sweep_drained env ss q)) where
    evicted :
        (r : Reason) (q : Pool env)
        → Holds (suc (length ss) + m) q
        → SweepHolds m (
            let (keep, swept, q') = sweep_drained env ss (discard_session env s r q) in
            (keep, swept + 1, q'))
    evicted r q h = rest _ m (discard_session-Holds (length ss + m) s r q (omega arith))

    kept :
        (q : Pool env)
        → Holds (suc (length ss) + m) q
        → SweepHolds m (let (keep, swept, q') = sweep_drained env ss q in (s ∷ keep, swept, q'))
    kept q h =
        let g =
          rest q (suc m) (record { counted = omega (arith, h.counted); bounded = h.bounded }) in
        record { counted = omega (arith, g.counted); bounded = g.bounded }

    by_reason :
        (reason : Option Reason) (p : Pool env)
        → Holds (suc (length ss) + m) p
        → SweepHolds m (elim reason [
          | none ↦ let (keep, swept, q) = sweep_drained env ss p in (s ∷ keep, swept, q)
          | some _ ↦
              let (keep, swept, q) = sweep_drained env ss (discard_session env s idle_timeout p) in
              (keep, swept + 1, q)
        ])
    by_reason none p h = kept p h
    by_reason (some r) p h = evicted idle_timeout p h

  sweep_drained-Holds :
      (ss : List Session) (p : Pool env) (m : ℕ)
      → Holds (length ss + m) p
      → SweepHolds m (sweep_drained env ss p)
  unfolding sweep_drained
  sweep_drained-Holds [] p m h = h
  sweep_drained-Holds (s ∷ ss) p m h =
      let rest =
        λ (q : Pool env) (n : ℕ) (g : Holds (length ss + n) q). sweep_drained-Holds ss q n g in
      let (reason, l) = session_idle_timeout_reason env p.config s p.locals in
      if-SweepHolds m p.closed _ _ (evicted s ss m rest provider_closed p h) (
        if-SweepHolds m (not (ltb p.config.minsize p.created)) _ _ (kept s ss m rest p h)
          (by_reason s ss m rest reason (record p { locals = l }) (Holds-locals l h)))

  if-Holds : (b : Bool) (p q : Pool env) → Holds k p → Holds k q → Holds k (if b then p else q)
  if-Holds true p q hp hq = hp
  if-Holds false p q hp hq = hq

  sweep_all-Holds : (p : Pool env) → Holds k p → Holds k (sweep_all env p).1
  unfolding sweep_all
  sweep_all-Holds p h =
      let emptied : Holds (length p.available + k) (record p { available = [] }) = record {
        counted = omega (arith, h.counted);
        bounded = h.bounded;
      } in
      let drained = sweep_drained-Holds p.available (record p { available = [] }) k emptied in
      let (keep, swept, q) = sweep_drained env p.available (record p { available = [] }) in
      let back = put_back-Holds keep q drained in
      let (lost, q') = put_back env keep q in
      if-Holds (ltb 0 (swept + lost)) _ q'
        (record { counted = back.counted; bounded = back.bounded }) back

  by_timeout :
      (idle : Option ℕ) (p : Pool env)
      → Holds k p
      → Holds k (elim idle as (λ _. ℕ × Pool env) [ none ↦ (0, p) | some _ ↦ sweep_all env p ]).1
  by_timeout none p h = h
  by_timeout (some t) p h = sweep_all-Holds p h

  -- `sweep_idle` keeps the pool within its capacity.
  sweep_idle-Holds : (p : Pool env) → Holds k p → Holds k (sweep_idle env p).1
  unfolding sweep_idle
  sweep_idle-Holds p h = by_timeout p.config.idle_timeout_seconds p h
