-- ===== src/Pool/Threads.antt =====
-- The pool under several threads (gemstone_py/session_providers.py): what they share, where in a
-- method each of them is, and the moves between, each of which is one call on the queue, one block
-- under the lock, or what a thread does alone. A session is its identifier. The settings, statistics
-- and events are left out.
pub mod Capacity
pub mod Places
mod Tests
use gemstone_py.Prelude.{
  ℕ, zero, suc, ◌+◌, ◌-◌, ◌≤◌, ◌<◌, ◌≡◌, Bool, true, false, List, [], ◌∷◌, ◌++◌, length, nat_eq,
  contains, ltb, if◌then◌else◌,
}

-- `_available` (a LIFO queue of at most `_maxsize`, its top first), `_created`, `_closed`, and the
-- sessions that were ever made.
pub record Shared : Type 0 where
  pub available : List ℕ
  pub created : ℕ
  pub maxsize : ℕ
  pub minsize : ℕ
  pub closed : Bool
  pub made : List ℕ

pub data Pc : Type 0 where
  -- in no method of the pool, without and with a session
  outside : Pc
  using : ℕ → Pc
  -- `acquire`: before `get_nowait`, after `queue.Empty`, with a slot, with a session that is not
  -- checked yet, and in `get`
  acquiring looking reserved waiting : Pc
  checking : ℕ → Pc
  -- `release` and `warm`: before `put_nowait`; `warm` with a slot
  returning : ℕ → Pc
  warming : Pc
  -- before each of some calls of `_discard_session`
  dropping : List ℕ → Pc
  -- `close` while it drains the queue
  closing : List ℕ → Pc
  -- `sweep_idle` while it drains the queue, while it judges what it drained (with what it keeps),
  -- before it discards one, and while it puts back
  sweeping : List ℕ → Pc
  judging : List ℕ → List ℕ → Pc
  evicting : ℕ → List ℕ → List ℕ → Pc
  restoring : List ℕ → Pc

-- The locked block of `_discard_session`.
abbrev free_slot : Shared → Shared
free_slot m = record m { created = if ltb 0 m.created then m.created - 1 else m.created }

-- `_available.get_nowait()` on a queue that is not empty leaves `rest`.
abbrev pub taken : List ℕ → Shared → Shared
taken rest m = record m { available = rest }

abbrev pub put : ℕ → Shared → Shared
put s m = record m { available = s ∷ m.available }

-- A thread releases the session that it holds, and once: a caller of `release` is taken to keep to that,
-- which the method does not check.
pub data Move (m : Shared) : Pc → Shared → Pc → Type 0 where
  start_acquire : m.closed ≡ false → Move m outside m acquiring
  get_nowait :
      {s : ℕ} {rest : List ℕ}
      → m.available ≡ s ∷ rest
      → Move m acquiring (taken rest m) (checking s)
  queue_empty : m.available ≡ [] → Move m acquiring m looking
  found_closed : m.closed ≡ true → Move m looking m outside
  reserve :
      m.closed ≡ false
      → m.created < m.maxsize
      → Move m looking (record m { created = m.created + 1 }) reserved
  no_slot : m.closed ≡ false → m.maxsize ≤ m.created → Move m looking m waiting
  create :
      (s : ℕ)
      → contains m.made s ≡ false
      → Move m reserved (record m { made = s ∷ m.made }) (checking s)
  create_raised : Move m reserved (record m { created = m.created - 1 }) outside
  get :
      {s : ℕ} {rest : List ℕ} → m.available ≡ s ∷ rest → Move m waiting (taken rest m) (checking s)
  timed_out : Move m waiting m outside
  ready : {s : ℕ} → Move m (checking s) m (using s)
  refused : {s : ℕ} → Move m (checking s) (free_slot m) acquiring
  check_raised : {s : ℕ} → Move m (checking s) m outside
  -- `release` with `discard`, on a closed pool, or of a session that fails its checks
  release_discard : {s : ℕ} → Move m (using s) m (dropping (s ∷ []))
  release_keep : {s : ℕ} → m.closed ≡ false → Move m (using s) m (returning s)
  release_raised : {s : ℕ} → Move m (returning s) m outside
  put_nowait : {s : ℕ} → length m.available < m.maxsize → Move m (returning s) (put s m) outside
  queue_full : {s : ℕ} → m.maxsize ≤ length m.available → Move m (returning s) m (dropping (s ∷ []))
  discard : {s : ℕ} {ss : List ℕ} → Move m (dropping (s ∷ ss)) (free_slot m) (dropping ss)
  discarded : Move m (dropping []) m outside
  -- `warm`, round by round
  warm_reserve :
      m.closed ≡ false
      → m.created < m.maxsize
      → Move m outside (record m { created = m.created + 1 }) warming
  warm_raised : Move m warming (record m { created = m.created - 1 }) outside
  warm_create :
      (s : ℕ)
      → contains m.made s ≡ false
      → Move m warming (record m { made = s ∷ m.made }) (returning s)
  warm_unhealthy :
      (s : ℕ)
      → contains m.made s ≡ false
      → Move m warming (record m { made = s ∷ m.made }) (dropping (s ∷ []))
  close : Move m outside (record m { closed = true }) (closing [])
  close_get :
      {s : ℕ} {rest ss : List ℕ}
      → m.available ≡ s ∷ rest
      → Move m (closing ss) (taken rest m) (closing (s ∷ ss))
  close_empty : {ss : List ℕ} → m.available ≡ [] → Move m (closing ss) m (dropping ss)
  sweep : Move m outside m (sweeping [])
  sweep_get :
      {s : ℕ} {rest ss : List ℕ}
      → m.available ≡ s ∷ rest
      → Move m (sweeping ss) (taken rest m) (sweeping (s ∷ ss))
  sweep_empty : {ss : List ℕ} → m.available ≡ [] → Move m (sweeping ss) m (judging ss [])
  judge_closed :
      {s : ℕ} {ss kept : List ℕ}
      → m.closed ≡ true
      → Move m (judging (s ∷ ss) kept) m (evicting s ss kept)
  judge_idle :
      {s : ℕ} {ss kept : List ℕ}
      → m.minsize < m.created
      → Move m (judging (s ∷ ss) kept) m (evicting s ss kept)
  judge_keep :
      {s : ℕ} {ss kept : List ℕ}
      → m.closed ≡ false
      → Move m (judging (s ∷ ss) kept) m (judging ss (s ∷ kept))
  judged : {kept : List ℕ} → Move m (judging [] kept) m (restoring kept)
  evict : {s : ℕ} {ss kept : List ℕ} → Move m (evicting s ss kept) (free_slot m) (judging ss kept)
  restore :
      {s : ℕ} {ss : List ℕ}
      → length m.available < m.maxsize
      → Move m (restoring (s ∷ ss)) (put s m) (restoring ss)
  restore_full :
      {s : ℕ} {ss : List ℕ}
      → m.maxsize ≤ length m.available
      → Move m (restoring (s ∷ ss)) (free_slot m) (restoring ss)
  restored : Move m (restoring []) m outside

-- The pool and its threads.
pub record System : Type 0 where
  pub mem : Shared
  pub threads : List Pc

-- One of the threads moves.
pub data Step (s : System) : System → Type 0 where
  pick :
      {m : Shared} {p q : Pc} (before behind : List Pc)
      → s.threads ≡ before ++ p ∷ behind
      → Move s.mem p m q
      → Step s (record { mem = m; threads = before ++ q ∷ behind })

abbrev pub all_outside : ℕ → List Pc
all_outside zero = []
all_outside (suc n) = outside ∷ all_outside n

-- A pool as `__init__` leaves it, and `n` threads.
abbrev initial : ℕ → ℕ → ℕ → System
initial n maxsize minsize = record {
  mem = record {
    available = [];
    created = 0;
    maxsize = maxsize;
    minsize = minsize;
    closed = false;
    made = [];
  };
  threads = all_outside n;
}

pub data Reach (n maxsize minsize : ℕ) : System → Type 0 where
  start : Reach n maxsize minsize (initial n maxsize minsize)
  next : {s t : System} → Reach n maxsize minsize s → Step s t → Reach n maxsize minsize t
