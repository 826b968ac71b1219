-- ===== src/Client/Handles/Calls.antt =====
-- Methods of the session that are calls which leave the export set as it is.
use gemstone_py.Prelude.{ℕ, ◌≡◌, refl, Bool, true, false}
use gemstone_py.Prelude.Action.{◌>>=◌}
use gemstone_py.Client.{Gci, Client}
use gemstone_py.Client.Session.{call_gci}
use gemstone_py.Client.Calls.{commit, raise_unless}
use gemstone_py.Client.Handles.{ExportSet, IsCall}

module _ (g : Gci) (me : ℕ) (e : ExportSet g) where
  raise_unless-kept : (r : Bool × ℕ) (c : Client g) → (raise_unless g me r c).1 ≡ c
  unfolding raise_unless
  raise_unless-kept (true, n) c = refl
  raise_unless-kept (false, n) c = refl

  -- The commit, if `GciCommit` leaves the export set as it is.
  pub commit-IsCall :
      ((w : g.World) (x : ℕ) → e.exported (g.commit w).1 x ≡ e.exported w x)
      → IsCall g me e (commit g me)
  unfolding commit
  commit-IsCall law = record {
    rest = call_gci g me g.commit >>= raise_unless g me;
    starts = λ c. refl;
    leaves = λ c. (
      (g.commit c.world).1,
      raise_unless-kept (g.commit c.world).0 (record c { world = (g.commit c.world).1 }),
      (λ x. law c.world x),
    );
  }
