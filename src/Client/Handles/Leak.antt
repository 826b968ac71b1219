-- ===== src/Client/Handles/Leak.antt =====
-- Handles that several threads retain and release, a method at a time, on a session that one thread
-- owns.
use gemstone_py.Prelude.{
  ℕ, zero, suc, ◌+◌, ◌≡◌, ◌<◌, refl, sym, ap, ◌∙◌, true, false, List, [], ◌∷◌, arith, nat_eq, ◌==◌,
  Bool-cases, inl, inr, subst,
}
use gemstone_py.Prelude.Exec.{Result, err}
use gemstone_py.Prelude.Dict.{lookup, insert, erase, lookup-insert, lookup-erase}
use gemstone_py.Client.{Gci, ClientError, different_thread, Client, Method}
use gemstone_py.Client.Session.{count_of, can_call_gci_on_current_thread, add_to_export_set}
use gemstone_py.Client.Exports.{retain_managed_oop, release_managed_oop}
use gemstone_py.Client.Refusal.{BoundTo, BoundTo-update, activate-foreign, require_login-foreign}
use gemstone_py.Client.Handles.{ExportSet, IsCall, call-owned, total, total-insert}
use gemstone_py.Client.Handles.Steps.{
  references, retain_more, retain_first, retain_first-owned, release_none, release_more,
  release_last-owned, release_last-foreign,
}

-- A method of the session, and the thread that runs it; a call is a method that goes to the server.
pub data HandleEvent (g : Gci) : Type 0 where
  retained released : ℕ → ℕ → HandleEvent g
  called : ℕ → Method g (Unit {0}) → HandleEvent g

same_thread : (a b : ℕ) → (a == b) ≡ true → a ≡ b
same_thread a b h = ground arith

module _ (g : Gci) where
  -- The session after the method, whether it returned or raised.
  abbrev after_event : HandleEvent g → Client g → Client g
  after_event (retained thread o) c = (retain_managed_oop g thread o c).1
  after_event (released thread o) c = (release_managed_oop g thread o c).1
  after_event (called thread m) c = (m c).1

  abbrev pub after : List (HandleEvent g) → Client g → Client g
  after [] c = c
  after (event ∷ events) c = after events (after_event event c)

  module _ (owner : ℕ) (e : ExportSet g) where
    -- What is in the export set is counted, or its removal is left to the owner.
    pub record Covered (c : Client g) : Type 0 where
      pub bound : BoundTo owner c
      pub idle : c.draining ≡ false
      pub covered :
          (x : ℕ) → e.exported c.world x ≡ true → 0 < references x c + total x c.pending_removals

    -- A method that leaves such a session behind, whatever it gives back.
    abbrev Leaves : (Result ClientError (Unit {0}) × Client g) → Type 0
    Leaves r = Covered r.1

    add_to_export_set-foreign :
        (me o : ℕ) (c : Client g)
        → BoundTo owner c
        → (owner == me) ≡ false
        → add_to_export_set g me o c ≡ (err (different_thread owner), c)
    unfolding add_to_export_set
    add_to_export_set-foreign me o c b h =
        simp (b.logged, b.loaded, e.has_add, activate-foreign g me b h)

    retain-foreign :
        (me o : ℕ) (c : Client g)
        → BoundTo owner c
        → (owner == me) ≡ false
        → references o c ≡ 0
        → retain_managed_oop g me o c ≡ (err (different_thread owner), c)
    retain-foreign me o c b h q =
        retain_first g me o c q ∙ rw (add_to_export_set-foreign me o c b h)

    recount-Covered :
        (o n : ℕ) (c : Client g)
        → 0 < n
        → Covered c
        → Covered (record c { managed_oop_counts = insert o n c.managed_oop_counts })
    recount-Covered o n c lt s =
        let b = s.bound in
        record {
          bound = BoundTo-update b;
          idle = s.idle;
          covered = λ x h. ground (arith, s.covered x h, lookup-insert x o n c.managed_oop_counts);
        }

    -- `n` is the count of the object before.
    retain-Covered :
        (me o n : ℕ) (c : Client g)
        → references o c ≡ n
        → Covered c
        → Covered (retain_managed_oop g me o c).1
    retain-Covered me o (suc n) c q s =
        rw (retain_more g me o c n q) (recount-Covered o (suc n + 1) c (omega arith) s)
    retain-Covered me o zero c q s = elim (Bool-cases (owner == me)) [
      | inl same ↦
          rw
            (retain_first-owned g me o c e
              (subst (λ t. BoundTo t c) (same_thread owner me same) s.bound) q)
            (record {
              bound = BoundTo-update s.bound;
              idle = s.idle;
              covered = λ x h. ground (
                arith,
                s.covered x,
                lookup-insert x o 1 c.managed_oop_counts,
                e.exported-add o x (g.set_session_id c.session_id c.world),
                e.exported-set_session_id c.session_id x c.world,
              );
            })
      | inr other ↦ rw (retain-foreign me o c s.bound other q) s
    ]

    can_call-foreign :
        (me : ℕ) (c : Client g)
        → BoundTo owner c
        → (owner == me) ≡ false
        → can_call_gci_on_current_thread g me c ≡ false
    unfolding can_call_gci_on_current_thread
    can_call-foreign me c b h = simp (b.logged, b.bound, h)

    release-Covered :
        (me o n : ℕ) (c : Client g)
        → references o c ≡ n
        → Covered c
        → Covered (release_managed_oop g me o c).1
    release-Covered me o zero c q s = rw (release_none g me o c q) s
    release-Covered me o (suc (suc n)) c q s =
        rw (release_more g me o c n q) (recount-Covered o (suc n) c (omega arith) s)
    release-Covered me o (suc zero) c q s = elim (Bool-cases (owner == me)) [
      | inl same ↦
          rw
            (release_last-owned g me o c e
              (subst (λ t. BoundTo t c) (same_thread owner me same) s.bound) q)
            (record {
              bound = BoundTo-update s.bound;
              idle = s.idle;
              covered = λ x h. ground (
                arith,
                s.covered x,
                lookup-erase x o c.managed_oop_counts,
                e.exported-remove o x (g.set_session_id c.session_id c.world),
                e.exported-set_session_id c.session_id x c.world,
              );
            })
      | inr other ↦
          rw (release_last-foreign g me o c q (can_call-foreign me c s.bound other) s.bound.logged)
            (record {
              bound = BoundTo-update s.bound;
              idle = s.idle;
              covered = λ x h. ground (
                arith,
                s.covered x h,
                lookup-erase x o c.managed_oop_counts,
                total-insert x o c.pending_removals,
              );
            })
    ]

    -- After a call of the owner nothing is left to remove.
    settle-owned :
        (m : Method g (Unit {0})) (c : Client g)
        → IsCall g owner e m
        → Covered c
        → Covered (m c).1 × ((m c).1.pending_removals ≡ [])
    settle-owned m c call s =
        let (w, q, r) = call-owned g owner e m call s.bound s.idle in
        rw q (
          record {
            bound = BoundTo-update s.bound;
            idle = refl;
            covered = λ x h. ground (arith, s.covered x, r x);
          },
          refl,
        )

    call-Covered :
        (me : ℕ) (m : Method g (Unit {0})) (c : Client g)
        → IsCall g me e m
        → Covered c
        → Covered (m c).1
    call-Covered me m c call s = elim (Bool-cases (owner == me)) [
      | inl same ↦
          (settle-owned m c (subst (λ t. IsCall g t e m) (sym (same_thread owner me same)) call)
            s).0
      | inr other ↦ rw (call.starts c, require_login-foreign g me s.bound other) s
    ]

    -- The calls are such calls of their threads.
    abbrev pub Calls : List (HandleEvent g) → Type 0
    Calls [] = Unit
    Calls (retained me o ∷ events) = Calls events
    Calls (released me o ∷ events) = Calls events
    Calls (called me m ∷ events) = IsCall g me e m × Calls events

    after-Covered :
        (events : List (HandleEvent g)) (c : Client g)
        → Calls events
        → Covered c
        → Covered (after events c)
    after-Covered [] c calls s = s
    after-Covered (retained me o ∷ events) c calls s =
        after-Covered events _ calls (retain-Covered me o (references o c) c refl s)
    after-Covered (released me o ∷ events) c calls s =
        after-Covered events _ calls (release-Covered me o (references o c) c refl s)
    after-Covered (called me m ∷ events) c (call, calls) s =
        after-Covered events _ calls (call-Covered me m c call s)

    -- Where each call is the guard require_login of its thread and then calls of the library
    -- that leave the export set as it is: however threads retain and release handles and make
    -- such calls, a method at a time and each of them returning or raising, after the next
    -- call of the thread that owns the session every object in the export set has a reference
    -- that is counted.
    pub nothing_leaks :
        (events : List (HandleEvent g)) (m : Method g (Unit {0})) (c : Client g) (x : ℕ)
        → Calls events
        → IsCall g owner e m
        → Covered c
        → e.exported (m (after events c)).1.world x ≡ true
        → 0 < references x (m (after events c)).1
    nothing_leaks events m c x calls call s h =
        let (settled, empty) =
          settle-owned m (after events c) call (after-Covered events c calls s) in
        omega (arith, settled.covered x h, ap (total x) empty)

    abbrev left : ℕ → Client g → Client g
    left o c = record c {
      managed_oop_counts = erase o c.managed_oop_counts;
      pending_removals = insert o (count_of (lookup o c.pending_removals) + 1) c.pending_removals;
    }

    abbrev kept : ℕ → Client g → Client g
    kept o c = record c {
      managed_oop_counts = insert o 1 c.managed_oop_counts;
      world = e.add o (g.set_session_id c.session_id c.world);
    }

    -- If another thread drops the only reference to an object and the owner of the session
    -- takes a new one before its next call, then after that call the reference is counted and
    -- the object is not in the export set, where the call itself leaves the export set as it
    -- is.
    pub retained_then_lost :
        (other o : ℕ) (m : Method g (Unit {0})) (c : Client g)
        → IsCall g owner e m
        → BoundTo owner c
        → c.draining ≡ false
        → (owner == other) ≡ false
        → references o c ≡ 1
        → let d = after (released other o ∷ retained owner o ∷ called owner m ∷ []) c in
          (references o d ≡ 1) × (e.exported d.world o ≡ false)
    retained_then_lost other o m c call b idle h q =
        let c1 = left o c in
        let c2 = kept o c1 in
        let e1 = release_last-foreign g other o c q (can_call-foreign other c b h) b.logged in
        let none_left : references o c1 ≡ 0 =
          ground (arith, lookup-erase o o c.managed_oop_counts) in
        let e2 = retain_first-owned g owner o c1 e (BoundTo-update b) none_left in
        let (w, e3, r) = call-owned g owner e m {c = c2} call (BoundTo-update b) idle in
        let ends : after (released other o ∷ retained owner o ∷ called owner m ∷ []) c
            ≡ record c2 { world = w; pending_removals = []; draining = false } =
          ap (λ d. after (retained owner o ∷ called owner m ∷ []) d.1) e1
          ∙ ap (λ d. after (called owner m ∷ []) d.1) e2
          ∙ e3 in
        rw ends (
          ground (arith, lookup-insert o o 1 c1.managed_oop_counts),
          ground (arith, r o, total-insert o o c.pending_removals),
        )
