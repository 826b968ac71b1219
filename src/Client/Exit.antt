-- ===== src/Client/Exit.antt =====
-- The logout and the end of a `with` block.
use gemstone_py.Prelude.{
  ℕ, zero, suc, ◌≡◌, refl, sym, ap, subst, ◌∙◌, Bool, true, false, not, ◌||◌, none, [], nat_eq,
  ◌==◌, if◌then◌else◌, if-false, inl, inr,
}
use gemstone_py.Prelude.Exec.{Result, ok, err, Result-cases}
use gemstone_py.Prelude.Dict.{Dict}
use gemstone_py.Prelude.Action.{pure, catch, ◌>>=◌, ◌>>◌}
use gemstone_py.Oop.{oop_illegal}
use gemstone_py.Prelude.Texts.{codes}
use gemstone_py.Scope.{TransactionPolicy, manual, commit_on_success, abort_on_exit}
use gemstone_py.Client.{Gci, ClientError, library_not_loaded, Client, Method}
use gemstone_py.Client.Session.{call_gci, require_login, require_lib}
use gemstone_py.Client.Calls.{
  logout, commit, abort, check_result, exit_transaction, exit, raise_unless, raise_number,
  raise_illegal, abort_by_source, end_abort, logged_out,
}
use gemstone_py.Client.Refusal.{BoundTo, BoundTo-update}
use gemstone_py.Client.Handles.{ExportSet, require_login-owned, activate_session-owned}

module _ (g : Gci) (me : ℕ) where
  -- A call of the library changes the world only.
  abbrev WorldOnly : Client g → Client g → Type 0
  WorldOnly c d = (w : g.World) × (d ≡ record c { world = w })

  -- A method that changes the world only, whether it returns or raises.
  abbrev OnWorld : {A : Type 0} → Method g A → Type 0
  OnWorld m = (c : Client g) → WorldOnly c (m c).1

  bind-OnWorld :
      {A B : Type 0} (m : Method g A) (f : A → Method g B)
      → OnWorld m
      → ((a : A) → OnWorld (f a))
      → OnWorld (m >>= f)
  bind-OnWorld m f h k c =
      let (w, p) = h c in
      elim (Result-cases (m c).0) [
        | inl (a, e) ↦ let (v, q) = k a (m c).1 in (v, rw (e, q, p))
        | inr (x, e) ↦ (w, rw e p)
      ]

  if-OnWorld :
      {A : Type 0} (b : Bool) (m n : Method g A)
      → OnWorld m
      → OnWorld n
      → OnWorld (if b then m else n)
  if-OnWorld true m n h k = h
  if-OnWorld false m n h k = k

  call_gci-OnWorld : {A : Type 0} (f : g.World → A × g.World) → OnWorld (call_gci g me f)
  call_gci-OnWorld f c = ((f c.world).1, refl)

  if-WorldOnly :
      (c : Client g) (b : Bool) (x y : Result ClientError (Unit {0}) × Client g)
      → WorldOnly c x.1
      → WorldOnly c y.1
      → WorldOnly c (if b then x else y).1
  if-WorldOnly c true x y h k = h
  if-WorldOnly c false x y h k = k

  require_lib-OnWorld : OnWorld (require_lib g me)
  unfolding require_lib
  require_lib-OnWorld c =
      if-WorldOnly c c.has_lib (ok tt, c) (err library_not_loaded, c) (c.world, refl)
        (c.world, refl)

  raise_unless-OnWorld : (r : Bool × ℕ) → OnWorld (raise_unless g me r)
  unfolding raise_unless
  raise_unless-OnWorld (true, n) c = (c.world, refl)
  raise_unless-OnWorld (false, n) c = (c.world, refl)

  raise_number-OnWorld : (n : ℕ) → OnWorld (raise_number g me n)
  unfolding raise_number
  raise_number-OnWorld zero c = (c.world, refl)
  raise_number-OnWorld (suc n) c = (c.world, refl)

  raise_illegal-OnWorld : OnWorld (raise_illegal g me)
  unfolding raise_illegal
  raise_illegal-OnWorld =
      bind-OnWorld (require_lib g me) (λ a. call_gci g me g.last_error >>= raise_number g me)
        require_lib-OnWorld
        (λ a.
          bind-OnWorld (call_gci g me g.last_error) (raise_number g me)
            (call_gci-OnWorld g.last_error) raise_number-OnWorld)

  check_result-OnWorld : (oop : ℕ) → OnWorld (check_result g me oop)
  unfolding check_result
  check_result-OnWorld oop =
      if-OnWorld (oop == oop_illegal) (raise_illegal g me) (pure tt) raise_illegal-OnWorld
        (λ c. (c.world, refl))

  abort_by_source-OnWorld : OnWorld (abort_by_source g me)
  unfolding abort_by_source
  abort_by_source-OnWorld =
      bind-OnWorld (call_gci g me (g.execute_str (codes "System abortTransaction")))
        (check_result g me) (call_gci-OnWorld (g.execute_str (codes "System abortTransaction")))
        check_result-OnWorld

  end_abort-OnWorld : (r : Bool × ℕ) → OnWorld (end_abort g me r)
  unfolding end_abort
  end_abort-OnWorld (true, n) c = (c.world, refl)
  end_abort-OnWorld (false, zero) c = abort_by_source-OnWorld c
  end_abort-OnWorld (false, suc n) c = (c.world, refl)

  -- A session after calls that leave its login as it was.
  abbrev Kept : Client g → Client g → Type 0
  Kept c d =
      (w : g.World) × (p : Dict ℕ ℕ) × (d
        ≡ record c { world = w; pending_removals = p; draining = false })

  -- The fields are those of a session without a login, and the last call of the library was the logout.
  abbrev pub LoggedOut : Client g → Type 0
  LoggedOut c =
      (c.logged_in ≡ false)
      × (c.owner_thread_id ≡ none)
      × (c.managed_oop_counts ≡ [])
      × (c.pending_removals ≡ [])
      × ((w : g.World) × (c.world ≡ g.logout w))

  -- The one transaction whose failure the block reports.
  abbrev pub commits : Bool → TransactionPolicy → Bool
  commits false commit_on_success = true
  commits false policy = false
  commits true policy = false

  -- The session behind the end of its transaction, by how the block ended and by the policy.
  abbrev pub ended : Bool → TransactionPolicy → Client g → Client g
  ended true policy c = (abort g me c).1
  ended false commit_on_success c = (commit g me c).1
  ended false abort_on_exit c = (abort g me c).1
  ended false manual c = c

  module _ (e : ExportSet g) where
    login-Kept :
        (next : Method g (Unit {0})) (c : Client g)
        → OnWorld next
        → BoundTo me c
        → c.draining ≡ false
        → Kept c ((require_login g me >> next) c).1
    login-Kept next c h b idle =
        let (w, q, r) = require_login-owned g me e b idle in
        let (v, p) = h (record c { world = w; pending_removals = []; draining = false }) in
        (v, [], rw q p)

    commit-Kept : (c : Client g) → BoundTo me c → c.draining ≡ false → Kept c (commit g me c).1
    unfolding commit
    commit-Kept c = login-Kept (call_gci g me g.commit >>= raise_unless g me) c (
        bind-OnWorld (call_gci g me g.commit) (raise_unless g me) (call_gci-OnWorld g.commit)
          raise_unless-OnWorld)

    abort-Kept : (c : Client g) → BoundTo me c → c.draining ≡ false → Kept c (abort g me c).1
    unfolding abort
    abort-Kept c = login-Kept (call_gci g me g.abort >>= end_abort g me) c (
        bind-OnWorld (call_gci g me g.abort) (end_abort g me) (call_gci-OnWorld g.abort)
          end_abort-OnWorld)

    -- An abort whose exception is passed over.
    quiet_abort : (c : Client g) → (catch (abort g me) (λ x. pure tt) c) ≡ (ok tt, (abort g me c).1)
    quiet_abort c = elim (Result-cases (abort g me c).0) [ inl (a, p) ↦ rw p | inr (x, p) ↦ rw p ]

    exit_transaction_lem :
        (raised : Bool) (policy : TransactionPolicy) (c : Client g)
        → BoundTo me c
        → c.draining ≡ false
        → ((exit_transaction g me raised policy c).0
            ≡ (if commits raised policy then (commit g me c).0 else ok tt))
          × Kept c (exit_transaction g me raised policy c).1
    unfolding exit_transaction
    exit_transaction_lem true manual c b idle = rw (quiet_abort c) (refl, abort-Kept c b idle)
    exit_transaction_lem true abort_on_exit c b idle =
        rw (quiet_abort c) (refl, abort-Kept c b idle)
    exit_transaction_lem true commit_on_success c b idle =
        rw (quiet_abort c) (refl, abort-Kept c b idle)
    exit_transaction_lem false commit_on_success c b idle = (refl, commit-Kept c b idle)
    exit_transaction_lem false abort_on_exit c b idle =
        rw (quiet_abort c) (refl, abort-Kept c b idle)
    exit_transaction_lem false manual c b idle =
        (refl, (c.world, c.pending_removals, ap (λ d. record c { draining = d }) idle))

    logout_lem :
        (c : Client g)
        → BoundTo me c
        → c.draining ≡ false
        → ((logout g me c).0 ≡ ok tt) × LoggedOut (logout g me c).1
    unfolding logout
    logout_lem c b idle =
        let (w, q, r) = activate_session-owned g me e b idle in
        let ends : logout g me c
            ≡ (ok tt, logged_out g me (record c { world = g.logout w; draining = false })) =
          if-false (not c.logged_in || not c.has_lib) _ _ (rw (b.logged, b.loaded)) ∙ rw q in
        rw ends (refl, (refl, refl, refl, refl, (w, refl)))

    -- What the body of the `finally` makes of the result before it.
    exit_of :
        (raised : Bool) (policy : TransactionPolicy) (c : Client g) (d : Client g)
        → (exit_transaction g me raised policy c).1 ≡ d
        → (logout g me d).0 ≡ ok tt
        → ((exit g me raised policy c).0 ≡ (exit_transaction g me raised policy c).0)
          × ((exit g me raised policy c).1 ≡ (logout g me d).1)
    unfolding exit
    exit_of raised policy c d p q = rw (p, q) (refl, refl)

    exit_transaction-ended :
        (raised : Bool) (policy : TransactionPolicy) (c : Client g)
        → (exit_transaction g me raised policy c).1 ≡ ended raised policy c
    unfolding exit_transaction
    exit_transaction-ended true policy c = ap (λ x. x.1) (quiet_abort c)
    exit_transaction-ended false commit_on_success c = refl
    exit_transaction-ended false abort_on_exit c = ap (λ x. x.1) (quiet_abort c)
    exit_transaction-ended false manual c = refl

    -- Where the library has an export set: at the end of a with block on the thread that owns
    -- the session, the transaction is aborted if the block raised, and else ended by the
    -- policy; then comes the logout. The last call of the library is GciLogout, and the
    -- session is bound to no thread and without references, whatever raises before. The exit
    -- raises only what the commit of a block that returned under the commit policy raised.
    pub exit_lem :
        (raised : Bool) (policy : TransactionPolicy) (c : Client g)
        → BoundTo me c
        → c.draining ≡ false
        → ((exit g me raised policy c).0
            ≡ (if commits raised policy then (commit g me c).0 else ok tt))
          × ((exit g me raised policy c).1 ≡ (logout g me (ended raised policy c)).1)
          × LoggedOut (exit g me raised policy c).1
    exit_lem raised policy c b idle =
        let (r, (w, p, k)) = exit_transaction_lem raised policy c b idle in
        let (q, out) =
          logout_lem (record c { world = w; pending_removals = p; draining = false })
            (BoundTo-update b) refl in
        let (x, y) = exit_of raised policy c _ k q in
        let same = sym k ∙ exit_transaction-ended raised policy c in
        (x ∙ r, y ∙ ap (λ d. (logout g me d).1) same, subst LoggedOut (sym y) out)
