-- ===== src/Pool.antt =====
-- gemstone_py/session_providers.py: `GemStoneSessionProvider` and `GemStoneSessionPool`. The data; the
-- methods are in the modules below. Times are readings of the monotonic clock in whole ticks.
pub mod Provider
pub mod Methods
pub mod Checkout
pub mod Upkeep
pub mod Capacity
pub mod Release
pub mod Threads
pub mod Ends
mod Tests
use gemstone_py.Prelude.{ℕ, String, Option, Bool, List}
use gemstone_py.Prelude.Exec.{Result}
use gemstone_py.Session.{Fault}

-- A session object, with the attributes that the provider sets on it. `ident` is `id(session)`.
pub record Session : Type 0 where
  pub ident : ℕ
  pub created_at : ℕ
  pub use_count : ℕ
  pub last_used_at : ℕ
  pub validated_at : ℕ

-- Why a session is discarded, or that a wait timed out.
pub data Reason : Type 0 where
  max_age max_uses idle_timeout unhealthy reset_failed discard_requested provider_closed queue_full
        wait_timeout :
      Reason

pub record Stats : Type 0 where
  pub created_total : ℕ
  pub acquire_calls : ℕ
  pub release_calls : ℕ
  pub discard_calls : ℕ
  pub timeout_calls : ℕ
  pub reset_failures : ℕ
  pub healthcheck_failures : ℕ
  pub create_failures : ℕ
  pub recycle_age_discards : ℕ
  pub recycle_use_discards : ℕ
  pub idle_timeout_discards : ℕ
  pub warmup_calls : ℕ
  pub warmed_sessions : ℕ
  pub acquire_wait_seconds : ℕ
  pub close_calls : ℕ

abbrev pub no_stats : Stats
no_stats = record {
  created_total = 0;
  acquire_calls = 0;
  release_calls = 0;
  discard_calls = 0;
  timeout_calls = 0;
  reset_failures = 0;
  healthcheck_failures = 0;
  create_failures = 0;
  recycle_age_discards = 0;
  recycle_use_discards = 0;
  idle_timeout_discards = 0;
  warmup_calls = 0;
  warmed_sessions = 0;
  acquire_wait_seconds = 0;
  close_calls = 0;
}

-- The arguments of `_initialize_provider` and of the pool that the methods read.
-- `has_healthcheck` and `has_validation_query` say whether those two are given.
pub record Config : Type 0 where
  pub maxsize : ℕ
  pub minsize : ℕ
  pub acquire_timeout : Option ℕ
  pub max_session_age : Option ℕ
  pub max_session_uses : Option ℕ
  pub idle_timeout_seconds : Option ℕ
  pub has_healthcheck : Bool
  pub has_validation_query : Bool
  pub validation_interval_seconds : Option ℕ

-- What the provider calls outside the repository, or through a session: the clock, the factory with
-- the login, and the calls on a session. A check is true if it returned a true value; a raise is
-- false, as in the source.
pub record Env : Type 1 where
  pub World : Type 0
  pub monotonic : World → ℕ × World
  pub create : World → Result Fault ℕ × World
  pub abort : Session → World → Bool × World
  pub logout : Session → World → Bool × World
  pub logged_in : Session → World → Bool
  pub healthcheck : Session → World → Bool × World
  pub validation : Session → World → Bool × World
  pub claim : Session → World → Result Fault (Unit {0}) × World
  pub unclaim : Session → World → Result Fault (Unit {0}) × World

-- `GemStoneSessionProviderSnapshot`, without the names and limits that the configuration gives.
pub record Snapshot : Type 0 where
  pub maxsize : ℕ
  pub minsize : ℕ
  pub created : ℕ
  pub available : ℕ
  pub in_use : ℕ
  pub counters : Stats
  pub closed : Bool

pub data EventName : Type 0 where
  session_acquired session_released session_discarded session_warmed acquire_timed_out closed_event
        idle_sweep :
      EventName

pub record Event : Type 0 where
  pub name : EventName
  pub session_id : Option ℕ
  pub reason : Option Reason
  pub snapshot : Snapshot

-- What the methods of the pool raise. `blocked` and `out_of_fuel` are the model's own: a wait that
-- nothing ends, and a loop longer than the fuel.
pub data PoolError : Type 0 where
  pool_closed timed_out blocked out_of_fuel : PoolError
  call_failed : Fault → PoolError
