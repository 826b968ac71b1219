-- ===== src/Client/Exports.antt =====
-- The reference counts that keep objects in the export set of the session, and the handles over them
-- (gemstone_py/oop.py).
use gemstone_py.Prelude.{ℕ, zero, suc, ◌+◌, Bool, true, false, nat_eq, if◌then◌else◌}
use gemstone_py.Prelude.Exec.{ok}
use gemstone_py.Prelude.Action.{pure, ◌>>◌}
use gemstone_py.Prelude.Dict.{lookup, insert, erase}
use gemstone_py.Client.{Gci, Method}
use gemstone_py.Client.Session.{
  count_of, add_to_export_set, remove_from_export_set, can_call_gci_on_current_thread,
}

-- A context-managed handle for a raw pointer.
pub record OopHandle : Type 0 where
  pub oop : ℕ
  pub entered : Bool

-- A handle with a finalizer, which runs once.
pub record ManagedOop : Type 0 where
  pub oop : ℕ
  pub alive : Bool

module _ (g : Gci) (me : ℕ) where
  unfoldable pub set_count : ℕ → ℕ → Method g (Unit {0})
  set_count oop n c = (ok tt, record c { managed_oop_counts = insert oop n c.managed_oop_counts })

  retain_with : ℕ → ℕ → Method g (Unit {0})
  unfolding set_count
  retain_with oop zero = do add_to_export_set g me oop; set_count oop 1
  retain_with oop (suc previous) = set_count oop (suc previous + 1)

  unfoldable pub retain_managed_oop : ℕ → Method g (Unit {0})
  unfolding retain_with
  retain_managed_oop oop c = retain_with oop (count_of (lookup oop c.managed_oop_counts)) c

  -- The last reference is gone: the export set is left at once, or by the thread that owns the
  -- session, or it is gone with the login.
  forget_oop : ℕ → Method g (Unit {0})
  forget_oop oop c =
      if can_call_gci_on_current_thread g me c
      then remove_from_export_set g me oop c
      else if c.logged_in
      then (
        ok tt,
        record c {
          pending_removals =
              insert oop (count_of (lookup oop c.pending_removals) + 1) c.pending_removals;
        },
      )
      else (ok tt, c)

  release_with : ℕ → ℕ → Method g (Unit {0})
  unfolding forget_oop set_count
  release_with oop zero c = (ok tt, c)
  release_with oop (suc zero) c =
      forget_oop oop (record c { managed_oop_counts = erase oop c.managed_oop_counts })
  release_with oop (suc (suc rest)) c = set_count oop (suc rest) c

  unfoldable pub release_managed_oop : ℕ → Method g (Unit {0})
  unfolding release_with
  release_managed_oop oop c = release_with oop (count_of (lookup oop c.managed_oop_counts)) c

  -- `session.managed_oop(oop)`
  unfoldable managed_oop : ℕ → Method g ManagedOop
  managed_oop oop = do retain_managed_oop oop; pure (record { oop = oop; alive = true })

  unfoldable close_managed_oop : ManagedOop → Method g ManagedOop
  close_managed_oop h c =
      if h.alive
      then (do release_managed_oop h.oop; pure (record h { alive = false })) c
      else (ok h, c)

  unfoldable enter_handle : OopHandle → Method g OopHandle
  enter_handle h c =
      if h.entered
      then (ok h, c)
      else (do retain_managed_oop h.oop; pure (record h { entered = true })) c

  unfoldable exit_handle : OopHandle → Method g OopHandle
  exit_handle h c =
      if h.entered
      then (do release_managed_oop h.oop; pure (record h { entered = false })) c
      else (ok h, c)
