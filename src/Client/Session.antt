-- ===== src/Client/Session.antt =====
-- The guards of every call: the library, the login and the thread that owns the session; and the
-- drain of the export-set removals that other threads have left.
use gemstone_py.Prelude.{
  ℕ, zero, suc, Bool, true, false, not, ◌&&◌, ◌||◌, Option, none, some, [], ◌∷◌, length, nat_eq,
  ◌==◌, if◌then◌else◌,
}
use gemstone_py.Prelude.Exec.{Result, ok, err}
use gemstone_py.Prelude.Action.{Action, pure, ◌>>◌}
use gemstone_py.Prelude.Dict.{Dict}
use gemstone_py.Client.{
  Gci, ClientError, not_logged_in, library_not_loaded, different_thread, Client,
  gci_invalid_session, Method,
}

-- `counter[oop]` of a `Counter`
abbrev pub count_of : Option ℕ → ℕ
count_of none = 0
count_of (some n) = n

-- `popitem`: the entry that was added last, and the others.
unfoldable pub popitem : Dict ℕ ℕ → Option ((ℕ × ℕ) × Dict ℕ ℕ)
popitem [] = none
popitem (entry ∷ entries) = elim (popitem entries) as (λ _. Option ((ℕ × ℕ) × Dict ℕ ℕ)) [
  | none ↦ some (entry, [])
  | some (last, rest) ↦ some (last, entry ∷ rest)
]

-- `try: m finally: k`
abbrev pub try_finally {ℓ} :
    {S : Type 0} {E : Type 0} {A : Type ℓ} → Action S E A → (S → S) → Action S E A
try_finally m k s = ((m s).0, k (m s).1)

-- The thread `me` runs the methods.
module _ (g : Gci) (me : ℕ) where
  abbrev pub call_gci : {A : Type 0} → (g.World → A × g.World) → Method g A
  call_gci f c = (ok (f c.world).0, record c { world = (f c.world).1 })

  abbrev pub tell_gci : (g.World → g.World) → Method g (Unit {0})
  tell_gci f c = (ok tt, record c { world = f c.world })

  unfoldable pub require_lib : Method g (Unit {0})
  require_lib c = if c.has_lib then (ok tt, c) else (err library_not_loaded, c)

  require_session : Method g (Unit {0})
  require_session c =
      if c.session_id == gci_invalid_session then (err not_logged_in, c) else (ok tt, c)

  claim_owner : Option ℕ → Method g (Unit {0})
  claim_owner none c = (ok tt, record c { owner_thread_id = some me })
  claim_owner (some owner) c = if owner == me then (ok tt, c) else (err (different_thread owner), c)

  unfoldable claim_thread_ownership : Method g (Unit {0})
  unfolding claim_owner
  claim_thread_ownership c = if c.logged_in then claim_owner c.owner_thread_id c else (ok tt, c)

  release_owner : Option ℕ → Bool → Method g (Unit {0})
  release_owner none force c = (ok tt, c)
  release_owner (some owner) force c =
      if not force && not (owner == me)
      then (err (different_thread owner), c)
      else (ok tt, record c { owner_thread_id = none })

  unfoldable release_thread_ownership : Bool → Method g (Unit {0})
  unfolding release_owner
  release_thread_ownership force c = release_owner c.owner_thread_id force c

  is_me : Option ℕ → Bool
  is_me none = false
  is_me (some owner) = owner == me

  unfoldable pub can_call_gci_on_current_thread : Client g → Bool
  unfolding is_me
  can_call_gci_on_current_thread c = c.logged_in && is_me c.owner_thread_id

  -- `_activate_session(drain_pending=False)`
  unfoldable pub activate : Method g (Unit {0})
  unfolding require_lib require_session claim_thread_ownership
  activate = do
    require_lib
    require_session
    claim_thread_ownership
    (λ c. tell_gci (g.set_session_id c.session_id) c)

  export_call : Option (ℕ → g.World → g.World) → ℕ → Method g (Unit {0})
  export_call none oop c = (ok tt, c)
  export_call (some fn) oop c = tell_gci (fn oop) c

  unfoldable call_optional_oop_export_function :
      Option (ℕ → g.World → g.World) → ℕ → Method g (Unit {0})
  unfolding export_call
  call_optional_oop_export_function fn oop c =
      if not c.logged_in || not c.has_lib then (ok tt, c) else (do activate; export_call fn oop) c

  unfoldable pub add_to_export_set : ℕ → Method g (Unit {0})
  unfolding call_optional_oop_export_function
  add_to_export_set = call_optional_oop_export_function g.add_oop_to_export_set

  unfoldable pub remove_from_export_set : ℕ → Method g (Unit {0})
  unfolding call_optional_oop_export_function
  remove_from_export_set = call_optional_oop_export_function g.remove_oop_from_export_set

  -- `for _ in range(count)`
  unfoldable pub remove_times : ℕ → ℕ → Method g (Unit {0})
  remove_times zero oop = pure tt
  remove_times (suc count) oop = do remove_from_export_set oop; remove_times count oop

  -- The `while True` loop, with a bound on its rounds.
  unfoldable pub drain_loop : ℕ → Method g (Unit {0})
  drain_loop zero c = (ok tt, c)
  drain_loop (suc rounds) c =
      elim (popitem c.pending_removals) as (λ _. Result ClientError (Unit {0}) × Client g) [
        | none ↦ (ok tt, c)
        | some ((oop, count), rest) ↦
            (do remove_times count oop; drain_loop rounds) (record c { pending_removals = rest })
      ]

  unfoldable pub drain_pending_managed_oop_removals : Method g (Unit {0})
  drain_pending_managed_oop_removals c =
      if c.draining || not (can_call_gci_on_current_thread c)
      then (ok tt, c)
      else try_finally (drain_loop (suc (length c.pending_removals)))
          (λ d. record d { draining = false }) (record c { draining = true })

  unfoldable pub activate_session : Method g (Unit {0})
  activate_session = do activate; drain_pending_managed_oop_removals

  unfoldable pub require_login : Method g (Unit {0})
  require_login c = if c.logged_in then activate_session c else (err not_logged_in, c)
