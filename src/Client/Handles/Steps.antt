-- ===== src/Client/Handles/Steps.antt =====
-- `retain` and `release`, case by case.
use gemstone_py.Prelude.{ℕ, suc, ◌+◌, ◌≡◌, refl, ◌∙◌, true, false, nat_eq, if-true, if-false}
use gemstone_py.Prelude.Exec.{ok}
use gemstone_py.Prelude.Action.{◌>>◌}
use gemstone_py.Prelude.Dict.{lookup, insert, erase}
use gemstone_py.Client.{Gci, Client}
use gemstone_py.Client.Session.{count_of, can_call_gci_on_current_thread, add_to_export_set}
use gemstone_py.Client.Exports.{set_count, retain_managed_oop, release_managed_oop}
use gemstone_py.Client.Refusal.{BoundTo, BoundTo-update}
use gemstone_py.Client.Handles.{
  ExportSet, can_call-owned, add_to_export_set-owned, remove_from_export_set-owned,
}

-- How many references the session counts for an object.
abbrev pub references : {g : Gci} → ℕ → Client g → ℕ
references x c = count_of (lookup x c.managed_oop_counts)

module _ (g : Gci) (me o : ℕ) (c : Client g) where
  pub retain_more :
      (n : ℕ)
      → references o c ≡ suc n
      → retain_managed_oop g me o c
        ≡ (ok tt, record c { managed_oop_counts = insert o (suc n + 1) c.managed_oop_counts })
  unfolding retain_managed_oop
  retain_more n h = rw h

  pub retain_first :
      references o c ≡ 0
      → retain_managed_oop g me o c ≡ (add_to_export_set g me o >> set_count g me o 1) c
  unfolding retain_managed_oop
  retain_first h = rw h

  pub retain_first-owned :
      (e : ExportSet g)
      → BoundTo me c
      → references o c ≡ 0
      → retain_managed_oop g me o c ≡ (
        ok tt,
        record c {
          managed_oop_counts = insert o 1 c.managed_oop_counts;
          world = e.add o (g.set_session_id c.session_id c.world);
        },
      )
  unfolding set_count
  retain_first-owned e b h = retain_first h ∙ rw (add_to_export_set-owned g me e o b)

  pub release_none : references o c ≡ 0 → release_managed_oop g me o c ≡ (ok tt, c)
  unfolding release_managed_oop
  release_none h = rw h

  pub release_more :
      (n : ℕ)
      → references o c ≡ suc (suc n)
      → release_managed_oop g me o c
        ≡ (ok tt, record c { managed_oop_counts = insert o (suc n) c.managed_oop_counts })
  unfolding release_managed_oop
  release_more n h = rw h

  abbrev uncounted : Client g
  uncounted = record c { managed_oop_counts = erase o c.managed_oop_counts }

  pub release_last-owned :
      (e : ExportSet g)
      → BoundTo me c
      → references o c ≡ 1
      → release_managed_oop g me o c
        ≡ (ok tt, record uncounted { world = e.remove o (g.set_session_id c.session_id c.world) })
  unfolding release_managed_oop
  release_last-owned e b h = rw (
    h,
    can_call-owned g me {c = uncounted} (BoundTo-update b),
    remove_from_export_set-owned g me e o {c = uncounted} (BoundTo-update b),
  )

  can_call-uncounted :
      can_call_gci_on_current_thread g me uncounted ≡ can_call_gci_on_current_thread g me c
  unfolding can_call_gci_on_current_thread
  can_call-uncounted = refl

  -- Another thread leaves the removal to the owner.
  pub release_last-foreign :
      references o c ≡ 1
      → can_call_gci_on_current_thread g me c ≡ false
      → c.logged_in ≡ true
      → release_managed_oop g me o c ≡ (
        ok tt,
        record uncounted {
          pending_removals =
              insert o (count_of (lookup o c.pending_removals) + 1) c.pending_removals;
        },
      )
  unfolding release_managed_oop
  release_last-foreign h k l = rw h (
      if-false (can_call_gci_on_current_thread g me uncounted) _ _ (can_call-uncounted ∙ k)
      ∙ if-true c.logged_in _ _ l)
