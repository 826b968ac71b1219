-- ===== src/Concurrency.antt =====
-- The transaction levels, the object locks and the shared counters of gemstone_py/concurrency.py, over
-- the session of gemstone_py/client.py.
pub mod Ends
pub mod Levels
mod Tests
use gemstone_py.Prelude.{
  ℕ, Bool, true, false, Option, none, some, zero, suc, List, [], ◌∷◌, ◌++◌, if◌then◌else◌,
}
use gemstone_py.Prelude.Exec.{Result, ok, err}
use gemstone_py.Prelude.Action.{Action, pure, raise, ◌>>=◌, ◌>>◌}
use gemstone_py.Prelude.Int.{ℤ, pos, negsuc}
use gemstone_py.Prelude.Texts.Signed.{str_int}
use gemstone_py.Prelude.Texts.{Text, codes, str}
use gemstone_py.Batch.Fetch.{FetchError, value_error, object_for_oop_expr, fetch_collection_oops}
use gemstone_py.Client.{Gci, Client, ClientError, gci_error, Method}
use gemstone_py.Client.Session.{call_gci, require_login}
use gemstone_py.Client.Calls.{execute_str_oop}
use gemstone_py.Client.Bulk.{str_of}
use gemstone_py.Client.Marshal.{
  Marshalled, nothing, bool, int, character, float, string, oop_ref, eval,
}

-- What a helper or the body of its `with` block raises. An `interrupt` is no `Exception`: a
-- `KeyboardInterrupt`, say.
pub data Raised (Float E : Type 0) : Type 0 where
  session_error : ClientError → Raised Float E
  commit_conflict : Marshalled Float → List ℕ → List ℕ → Raised Float E
  no_oop : Raised Float E
  body_exception : E → Raised Float E
  interrupt : E → Raised Float E

-- What stands for a GemStone object: an int, an object with an `oop`, or something else.
pub data Target : Type 0 where
  raw_oop : ℕ → Target
  proxy : ℕ → Target
  no_proxy : Target

-- The thread `me` runs the helpers; `float_is_true` is the truth of a float.
module _ (g : Gci) (E : Type 0) (me : ℕ) (float_is_true : g.Float → Bool) where
  abbrev pub Helper : Type 0 → Type 0
  Helper A = Action (Client g) (Raised g.Float E) A

  unfoldable pub session_result :
      {A : Type 0} → Result ClientError A × Client g → Result (Raised g.Float E) A × Client g
  session_result (ok a, c) = (ok a, c)
  session_result (err e, c) = (err (session_error e), c)

  -- A call of the session in a helper.
  abbrev pub of_session : {A : Type 0} → Method g A → Helper A
  of_session m c = session_result (m c)

  abbrev pub evaluate : Text → Helper (Marshalled g.Float)
  evaluate source = of_session (eval g me source)

  -- `bool(value)`
  unfoldable pub is_true : Marshalled g.Float → Bool
  is_true nothing = false
  is_true (bool b) = b
  is_true (int (pos zero)) = false
  is_true (int (pos (suc n))) = true
  is_true (int (negsuc n)) = true
  is_true (character code) = true
  is_true (float x) = float_is_true x
  is_true (string []) = false
  is_true (string (c ∷ s)) = true
  is_true (oop_ref oop) = true

  -- `value or text`
  unfoldable pub or_text : Marshalled g.Float → Text → Marshalled g.Float
  unfolding is_true
  or_text value text = if is_true value then value else string text

  unfoldable pub conflict_unless : Bool → Helper (Unit {0})
  unfolding or_text
  conflict_unless true = pure tt
  conflict_unless false = do
    report ← evaluate (codes "System conflictReportString")
    raise (commit_conflict (or_text report (codes "Nested commit conflict")) [] [])

  -- Nothing looks at which error it was.
  unfoldable any_error :
      {A : Type 0} → Result ClientError A × Client g → Result FetchError A × Client g
  any_error (ok a, c) = (ok a, c)
  any_error (err e, c) = (err value_error, c)

  -- What `splitlines` is asked of: a reply without it raises, if it is not taken for empty.
  unfoldable text_of : Marshalled g.Float → Action (Client g) FetchError (Option Text)
  unfolding is_true
  text_of nothing = pure none
  text_of (string text) = pure (some text)
  text_of value = if is_true value then raise value_error else pure none

  unfoldable eval_text : Text → Action (Client g) FetchError (Option Text)
  unfolding any_error text_of
  eval_text source = do raw ← λ c. any_error (eval g me source c); text_of raw

  unfoldable fetch_conflicts : Text → Action (Client g) FetchError (List ℕ)
  unfolding any_error eval_text
  fetch_conflicts selector = do
    conflicts_oop ← λ c. any_error (execute_str_oop g me (codes "System " ++ selector) c)
    fetch_collection_oops eval_text conflicts_oop (codes "collection do: [:each |")
        (codes "each asOop asString")

  unfoldable or_no_oops : Result FetchError (List ℕ) → List ℕ
  or_no_oops (ok oops) = oops
  or_no_oops (err e) = []

  unfoldable collect_conflict_oops : Text → Helper (List ℕ)
  unfolding fetch_conflicts or_no_oops
  collect_conflict_oops selector c =
      (ok (or_no_oops (fetch_conflicts selector c).0), (fetch_conflicts selector c).1)

  unfoldable raise_conflict : Helper (Unit {0})
  unfolding or_text collect_conflict_oops
  raise_conflict = do
    report ← evaluate (codes "System conflictReportString")
    ww ← collect_conflict_oops (codes "currentTransactionWWConflicts")
    wd ← collect_conflict_oops (codes "currentTransactionWDConflicts")
    raise (commit_conflict (or_text (or_text report []) (codes "Commit conflict")) ww wd)

  -- `GciCommit` came to `done`, with that error number.
  unfoldable pub after_commit : Bool × ℕ → Helper (Unit {0})
  unfolding raise_conflict
  after_commit (true, number) = pure tt
  after_commit (false, suc number) = raise (session_error (gci_error (suc number)))
  after_commit (false, zero) = raise_conflict

  unfoldable pub commit : Helper (Unit {0})
  unfolding after_commit
  commit = do
    of_session (require_login g me)
    done ← of_session (call_gci g me g.commit)
    after_commit done

  unfoldable pub end_level : {A : Type 0} → Result (Raised g.Float E) A → Helper A
  unfolding conflict_unless is_true
  end_level (ok a) = do
    done ← evaluate (codes "System commitTransaction")
    checked ← conflict_unless (is_true done)
    pure a
  end_level (err (interrupt e)) = raise (interrupt e)
  end_level (err e) = do aborted ← evaluate (codes "System abortTransaction"); raise e

  -- `with nested_transaction(session): body`
  unfoldable pub nested_transaction : {A : Type 0} → Helper A → Helper A
  unfolding end_level
  nested_transaction body = do
    begun ← evaluate (codes "System beginNestedTransaction")
    (λ c. end_level (body c).0 (body c).1)

  unfoldable pub coerce_oop : Target → Helper ℕ
  coerce_oop (raw_oop oop) = pure oop
  coerce_oop (proxy oop) = pure oop
  coerce_oop no_proxy = raise no_oop

  -- `System <name>: (Object _objectForOop: <oop>)`
  unfoldable pub lock_source : Text → ℕ → Text
  lock_source name oop =
      codes "System " ++ name ++ codes ": (" ++ object_for_oop_expr oop ++ codes ")"

  unfoldable pub remove_lock : ℕ → Helper (Marshalled g.Float)
  unfolding lock_source
  remove_lock oop = evaluate (lock_source (codes "removeLock") oop)

  -- A `finally` clause: what the clause raises takes the place of what the body came to.
  unfoldable pub finish :
      {A : Type 0} → Result (Raised g.Float E) A → Helper (Marshalled g.Float) → Helper A
  finish (ok a) clean_up = do done ← clean_up; pure a
  finish (err e) clean_up = do done ← clean_up; raise e

  unfoldable pub locked : {A : Type 0} → Text → Target → Helper A → Helper A
  unfolding coerce_oop lock_source finish remove_lock
  locked name target body = do
    oop ← coerce_oop target
    taken ← evaluate (lock_source name oop)
    (λ c. finish (body c).0 (remove_lock oop) (body c).1)

  -- `with lock(session, obj): body`
  unfoldable pub lock : {A : Type 0} → Target → Helper A → Helper A
  unfolding locked
  lock = locked (codes "writeLock")

  unfoldable pub read_lock : {A : Type 0} → Target → Helper A → Helper A
  unfolding locked
  read_lock = locked (codes "readLock")

  unfoldable pub unlock : Target → Helper (Unit {0})
  unfolding coerce_oop remove_lock
  unlock target = do oop ← coerce_oop target; done ← remove_lock oop; pure tt

  unfoldable shared_counter_get : ℤ → Helper (Marshalled g.Float)
  unfolding str_int
  shared_counter_get index = evaluate (codes "System sharedCounter: " ++ str_int index)

  unfoldable change_counter : Text → ℤ → ℤ → Helper (Unit {0})
  unfolding str_int
  change_counter keyword index n = do
    done ← evaluate (
        codes "System sharedCounter: "
        ++ str_int index
        ++ codes " "
        ++ keyword
        ++ codes ": "
        ++ str_int n)
    pure tt

  unfoldable shared_counter_set : ℤ → ℤ → Helper (Unit {0})
  unfolding change_counter
  shared_counter_set = change_counter (codes "setValue")

  unfoldable shared_counter_increment : ℤ → ℤ → Helper (Unit {0})
  unfolding change_counter
  shared_counter_increment = change_counter (codes "incrementBy")

  unfoldable shared_counter_decrement : ℤ → ℤ → Helper (Unit {0})
  unfolding change_counter
  shared_counter_decrement = change_counter (codes "decrementBy")
