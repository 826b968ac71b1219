-- ===== src/Pool/Tests.antt =====
-- A pool of two sessions over a clock that ticks at each reading.
use gemstone_py.Prelude.{ℕ, ◌+◌, none, some, true, false, [], ◌∷◌, arith}
use gemstone_py.Prelude.Exec.{Result, ok}
use gemstone_py.Pool.{Session, no_stats, Config, Env, PoolError}
use gemstone_py.Pool.Methods.{Pool, release}
use gemstone_py.Pool.Checkout.{acquire}
use gemstone_py.Pool.Upkeep.{lease}
use gemstone_py.Pool.Capacity.{Holds}
use gemstone_py.Pool.Capacity.Lease.{lease-Holds}
use gemstone_py.Pool.Provider.{
  prepare_session_for_checkout, create_session, checkout_health, session_is_healthy,
  session_needs_validation, session_recycle_reason, session_idle_timeout_reason,
}
use gemstone_py.Pool.Ends.{IsReadyFresh, Terminates, acquire_ends}
use gemstone_py.Pool.Release.{Released, release-Released}

abbrev clock : Env
clock = record {
  World = ℕ;
  monotonic = λ w. (w, w + 1);
  create = λ w. (ok w, w + 1);
  abort = λ s w. (true, w);
  logout = λ s w. (true, w);
  logged_in = λ s w. true;
  healthcheck = λ s w. (true, w);
  validation = λ s w. (true, w);
  claim = λ s w. (ok tt, w);
  unclaim = λ s w. (ok tt, w);
}

abbrev config : Config
config = record {
  maxsize = 2;
  minsize = 0;
  acquire_timeout = some 5;
  max_session_age = none;
  max_session_uses = some 10;
  idle_timeout_seconds = some 100;
  has_healthcheck = true;
  has_validation_query = false;
  validation_interval_seconds = none;
}

abbrev old : Session
old = record { ident = 7; created_at = 1; use_count = 1; last_used_at = 3; validated_at = 1 }

abbrev recent : Session
recent = record { ident = 8; created_at = 2; use_count = 1; last_used_at = 450; validated_at = 1 }

-- One session is idle and one is with a caller, at time 500.
abbrev pool : Pool clock
pool = record {
  config = config;
  locals = record { stats = no_stats; world = 500 };
  available = recent ∷ [];
  created = 2;
  closed = false;
  events = [];
}

pool-Holds : Holds 1 pool
pool-Holds = record { counted = omega arith; bounded = omega arith }

pool-Holds_idle : Holds 0 pool
pool-Holds_idle = record { counted = omega arith; bounded = omega arith }

abbrev body : Session → Pool clock → Result PoolError ℕ × Pool clock
body s q = (ok s.ident, q)

lease-Holds_example : Holds 0 (lease clock (λ q. q) 3 body pool).1
lease-Holds_example = lease-Holds 0 (λ q. q) (λ q h. h) 3 body (λ s q h. h) pool pool-Holds_idle

release-Released_example : Released old pool (release clock (some old) false false pool)
release-Released_example = release-Released old false false pool

-- Without limits and checks, every session passes.
abbrev lax : Config
lax = record config {
  max_session_uses = none;
  idle_timeout_seconds = none;
  has_healthcheck = false;
}

lax-IsReadyFresh : IsReadyFresh clock lax
unfolding create_session prepare_session_for_checkout checkout_health session_is_healthy
    session_needs_validation session_recycle_reason session_idle_timeout_reason
lax-IsReadyFresh l s e s' r = λ q. cc

acquire_ends_example :
    Terminates clock (some 5) (acquire clock (λ q. q) 2 none (record pool { config = lax }))
acquire_ends_example =
    acquire_ends clock 2 none (record pool { config = lax }) lax-IsReadyFresh (omega arith)
