-- ===== src/Client/Refusal.antt =====
-- Calls from a thread that does not own the session, and calls without a login.
use gemstone_py.Prelude.{Bool, ℕ, ◌≡◌, true, false, some, List, nat_eq, ◌==◌}
use gemstone_py.Prelude.Exec.{err, ok}
use gemstone_py.Prelude.Dict.{Dict}
use gemstone_py.Prelude.Texts.{Text}
use gemstone_py.Client.{
  Gci, ClientError, different_thread, not_logged_in, Client, gci_invalid_session, Method,
}
use gemstone_py.Client.Session.{activate, activate_session, require_login}
use gemstone_py.Client.Calls.{
  commit, abort, needs_commit, in_transaction, logout, execute_str_oop, perform_oop_raw, new_string,
  new_symbol, new_object, resolve, float_oop, try_oop_to_float, fetch_string, fetch_class,
}
use gemstone_py.Client.Marshal.{eval, perform_value}

-- The session is logged in and bound to a thread.
pub record BoundTo {g : Gci} (owner : ℕ) (c : Client g) : Type 0 where
  pub loaded : c.has_lib ≡ true
  pub logged : c.logged_in ≡ true
  pub valid : (c.session_id == gci_invalid_session) ≡ false
  pub bound : c.owner_thread_id ≡ some owner

-- The methods on handles change these fields only.
pub BoundTo-update :
    {g : Gci} {owner : ℕ} {c : Client g} {counts pending : Dict ℕ ℕ} {draining : Bool} {w : g.World}
    → BoundTo owner c
    → BoundTo owner (record c {
      managed_oop_counts = counts;
      pending_removals = pending;
      draining = draining;
      world = w;
    })
BoundTo-update b = record { loaded = b.loaded; logged = b.logged; valid = b.valid; bound = b.bound }

module _ (g : Gci) (me : ℕ) where
  -- The call raises, with no change to the session and no call of the library.
  abbrev pub Raises : {A : Type 0} → ClientError → Client g → Method g A → Type 0
  Raises e c m = m c ≡ (err e, c)

  -- Every call that needs a login raises that error; `login` itself makes no such test.
  pub record AllRaise (e : ClientError) (c : Client g) : Type 0 where
    pub on_commit : Raises e c (commit g me)
    pub on_abort : Raises e c (abort g me)
    pub on_needs_commit : Raises e c (needs_commit g me)
    pub on_in_transaction : Raises e c (in_transaction g me)
    pub on_execute : (source : Text) → Raises e c (execute_str_oop g me source)
    pub on_eval : (source : Text) → Raises e c (eval g me source)
    pub on_perform :
        (receiver : ℕ) (selector : Text) (args : List ℕ)
        → Raises e c (perform_value g me receiver selector args)
    pub on_new_string : (text : Text) → Raises e c (new_string g me text)
    pub on_new_symbol : (text : Text) → Raises e c (new_symbol g me text)
    pub on_new_object : (class_oop : ℕ) → Raises e c (new_object g me class_oop)
    pub on_resolve : (name : Text) → Raises e c (resolve g me name)
    pub on_float_oop : (value : g.Float) → Raises e c (float_oop g me value)
    pub on_try_float : (oop : ℕ) → Raises e c (try_oop_to_float g me oop)
    pub on_fetch_string : (oop : ℕ) → Raises e c (fetch_string g me oop)
    pub on_fetch_class : (oop : ℕ) → Raises e c (fetch_class g me oop)

  AllRaise-of-require_login :
      (e : ClientError) (c : Client g) → Raises e c (require_login g me) → AllRaise e c
  unfolding commit abort needs_commit in_transaction execute_str_oop eval perform_value
      perform_oop_raw new_string new_symbol new_object resolve float_oop try_oop_to_float
      fetch_string fetch_class
  AllRaise-of-require_login e c h = record {
    on_commit = rw h;
    on_abort = rw h;
    on_needs_commit = rw h;
    on_in_transaction = rw h;
    on_execute = λ source. rw h;
    on_eval = λ source. rw h;
    on_perform = λ receiver selector args. rw h;
    on_new_string = λ text. rw h;
    on_new_symbol = λ text. rw h;
    on_new_object = λ class_oop. rw h;
    on_resolve = λ name. rw h;
    on_float_oop = λ value. rw h;
    on_try_float = λ oop. rw h;
    on_fetch_string = λ oop. rw h;
    on_fetch_class = λ oop. rw h;
  }

  pub activate-foreign :
      {owner : ℕ} {c : Client g}
      → BoundTo owner c
      → (owner == me) ≡ false
      → Raises (different_thread owner) c (activate g me)
  unfolding activate
  activate-foreign {c = c} b h = rw (b.loaded, b.valid, b.logged, b.bound, h)

  pub require_login-foreign :
      {owner : ℕ} {c : Client g}
      → BoundTo owner c
      → (owner == me) ≡ false
      → Raises (different_thread owner) c (require_login g me)
  unfolding require_login activate_session
  require_login-foreign b h = simp (b.logged, activate-foreign b h)

  logout-foreign :
      {owner : ℕ} {c : Client g}
      → BoundTo owner c
      → (owner == me) ≡ false
      → Raises (different_thread owner) c (logout g me)
  unfolding logout activate_session
  logout-foreign b h = simp (b.logged, b.loaded, activate-foreign b h)

  -- On a session that is logged in and bound to a thread, each call that requires a login, and
  -- the logout, made from another thread, raise and leave the session and the library
  -- untouched. A new login is no such call.
  pub foreign_calls_refused :
      (owner : ℕ) (c : Client g)
      → BoundTo owner c
      → (owner == me) ≡ false
      → AllRaise (different_thread owner) c × Raises (different_thread owner) c (logout g me)
  foreign_calls_refused owner c b h = (
    AllRaise-of-require_login (different_thread owner) c (require_login-foreign b h),
    logout-foreign b h,
  )

  require_login-logged_out :
      (c : Client g) → c.logged_in ≡ false → Raises not_logged_in c (require_login g me)
  unfolding require_login
  require_login-logged_out c h = rw h

  -- On a session that is not logged in each call to the server raises that it is not logged in,
  -- and the logout returns; neither changes the session or calls the library.
  calls_without_login :
      (c : Client g) → c.logged_in ≡ false → AllRaise not_logged_in c × (logout g me c ≡ (ok tt, c))
  unfolding logout
  calls_without_login c h =
      (AllRaise-of-require_login not_logged_in c (require_login-logged_out c h), rw h)
