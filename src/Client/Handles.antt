-- ===== src/Client/Handles.antt =====
-- The calls of the thread that owns the session, over a library whose export set is a set.
pub mod Steps
pub mod Calls
pub mod Leak
pub mod Refinement
use gemstone_py.Prelude.{
  ℕ, zero, suc, ◌+◌, ◌≡◌, ◌<◌, refl, sym, ap, ◌∙◌, Bool, true, false, Option, none, some, List, [],
  ◌∷◌, length, arith, nat_eq, ◌==◌, ==_refl, ltb, if◌then◌else◌, if-true, if-false, Option-cases,
  inl, inr, not, ◌||◌,
}
use gemstone_py.Prelude.Exec.{Result, ok}
use gemstone_py.Prelude.Action.{◌>>◌}
use gemstone_py.Prelude.Dict.{Dict, lookup, insert}
use gemstone_py.Client.{Gci, ClientError, Client, Method}
use gemstone_py.Client.Session.{
  count_of, popitem, activate, require_login, activate_session, can_call_gci_on_current_thread,
  add_to_export_set, remove_from_export_set, remove_times, drain_loop,
  drain_pending_managed_oop_removals,
}
use gemstone_py.Client.Refusal.{BoundTo, BoundTo-update}

-- The export set of the session, as the library keeps it.
pub record ExportSet (g : Gci) : Type 0 where
  pub add : ℕ → g.World → g.World
  pub remove : ℕ → g.World → g.World
  pub exported : g.World → ℕ → Bool
  pub has_add : g.add_oop_to_export_set ≡ some add
  pub has_remove : g.remove_oop_from_export_set ≡ some remove
  pub exported-add :
      (o x : ℕ) (w : g.World) → exported (add o w) x ≡ (if x == o then true else exported w x)
  pub exported-remove :
      (o x : ℕ) (w : g.World) → exported (remove o w) x ≡ (if x == o then false else exported w x)
  pub exported-set_session_id :
      (n x : ℕ) (w : g.World) → exported (g.set_session_id n w) x ≡ exported w x

-- The removals that are left for an object.
abbrev pub total : ℕ → Dict ℕ ℕ → ℕ
total x [] = 0
total x ((o, n) ∷ d) = (if x == o then n else 0) + total x d

pub total-insert :
    (x o : ℕ) (d : Dict ℕ ℕ)
    → total x (insert o (count_of (lookup o d) + 1) d) ≡ total x d + (if x == o then 1 else 0)
unfolding insert lookup
total-insert x o [] = ground arith
total-insert x o ((p, n) ∷ d) = ground (arith, total-insert x o d)

popitem_nil : (d : Dict ℕ ℕ) → popitem d ≡ none → d ≡ []
unfolding popitem
popitem_nil [] h = refl
popitem_nil (e ∷ d) h = elim (Option-cases (popitem d)) [
  | inl q ↦ cc (rw q at h)
  | inr (p, q) ↦ cc (rw q at h)
]

record Popped (d : Dict ℕ ℕ) (o n : ℕ) (rest : Dict ℕ ℕ) : Type 0 where
  shorter : length d ≡ suc (length rest)
  totals : (x : ℕ) → total x d ≡ (if x == o then n else 0) + total x rest

popitem_lem :
    (d : Dict ℕ ℕ) (o n : ℕ) (rest : Dict ℕ ℕ) → popitem d ≡ some ((o, n), rest) → Popped d o n rest
unfolding popitem
popitem_lem [] o n rest h = cc
popitem_lem ((p, m) ∷ d) o n rest h = elim (Option-cases (popitem d)) [
  | inl q ↦ record {
    shorter = ground (arith, popitem_nil d q);
    totals = λ x. ground (arith, popitem_nil d q);
  }
  | inr (((o', n'), r), q) ↦
      let ih = popitem_lem d o' n' r q in
      record { shorter = ground (arith, ih.shorter); totals = λ x. ground (arith, ih.totals x) }
]

module _ (g : Gci) (me : ℕ) where
  activate-owned :
      {c : Client g}
      → BoundTo me c
      → activate g me c ≡ (ok tt, record c { world = g.set_session_id c.session_id c.world })
  unfolding activate
  activate-owned b = simp (b.loaded, b.valid, b.logged, b.bound, ==_refl)

  pub can_call-owned : {c : Client g} → BoundTo me c → can_call_gci_on_current_thread g me c ≡ true
  unfolding can_call_gci_on_current_thread
  can_call-owned b = simp (b.logged, b.bound, ==_refl)

  module _ (e : ExportSet g) where
    open e use {
      add, remove, exported, has_add, has_remove, exported-add, exported-remove,
      exported-set_session_id,
    }

    pub remove_from_export_set-owned :
        (o : ℕ) {c : Client g}
        → BoundTo me c
        → remove_from_export_set g me o c
          ≡ (ok tt, record c { world = remove o (g.set_session_id c.session_id c.world) })
    unfolding remove_from_export_set
    remove_from_export_set-owned o b = simp (b.logged, b.loaded, has_remove, activate-owned b)

    pub add_to_export_set-owned :
        (o : ℕ) {c : Client g}
        → BoundTo me c
        → add_to_export_set g me o c
          ≡ (ok tt, record c { world = add o (g.set_session_id c.session_id c.world) })
    unfolding add_to_export_set
    add_to_export_set-owned o b = simp (b.logged, b.loaded, has_add, activate-owned b)

    -- The world after the removals `p` of each object.
    abbrev Removed : (ℕ → ℕ) → g.World → g.World → Type 0
    Removed p w w' = (x : ℕ) → exported w' x ≡ (if ltb 0 (p x) then false else exported w x)

    remove_times-owned :
        (n o : ℕ) {c : Client g}
        → BoundTo me c
        → (w : g.World) × (remove_times g me n o c ≡ (ok tt, record c { world = w }))
          × Removed (λ x. if x == o then n else 0) c.world w
    unfolding remove_times
    remove_times-owned zero o {c} b = (c.world, refl, (λ x. ground arith))
    remove_times-owned (suc n) o {c} b =
        let w1 = remove o (g.set_session_id c.session_id c.world) in
        let c1 = record c { world = w1 } in
        let (w, q, r) = remove_times-owned n o {c = c1} (BoundTo-update b) in
        (
          w,
          simp (remove_from_export_set-owned o b, q),
          (λ x. ground (
            arith,
            r x,
            exported-remove o x (g.set_session_id c.session_id c.world),
            exported-set_session_id c.session_id x c.world,
          )),
        )

    abbrev drained : Client g → g.World → Client g
    drained c w = record c { world = w; pending_removals = [] }

    drain_loop_end :
        (rounds : ℕ) (c : Client g)
        → popitem c.pending_removals ≡ none
        → drain_loop g me (suc rounds) c ≡ (ok tt, c)
    unfolding drain_loop
    drain_loop_end rounds c q = rw (q, drain_loop)

    drain_loop_round :
        (rounds : ℕ) (c : Client g) (o n : ℕ) (rest : Dict ℕ ℕ)
        → popitem c.pending_removals ≡ some ((o, n), rest)
        → drain_loop g me (suc rounds) c
          ≡ (remove_times g me n o >> drain_loop g me rounds) (record c { pending_removals = rest })
    unfolding drain_loop
    drain_loop_round rounds c o n rest q = rw (q, drain_loop)

    drain_loop-owned :
        (rounds : ℕ) {c : Client g}
        → BoundTo me c
        → length c.pending_removals < rounds
        → (w : g.World) × (drain_loop g me rounds c ≡ (ok tt, drained c w))
          × Removed (λ x. total x c.pending_removals) c.world w
    drain_loop-owned zero b lt = absurd (omega arith)
    drain_loop-owned (suc rounds) {c} b lt = elim (Option-cases (popitem c.pending_removals)) [
      | inl q ↦
          let empty = popitem_nil c.pending_removals q in
          (
            c.world,
            drain_loop_end rounds c q ∙ ap (λ p. (ok tt, record c { pending_removals = p })) empty,
            (λ x. rw empty refl),
          )
      | inr (((o, n), rest), q) ↦
          let popped = popitem_lem c.pending_removals o n rest q in
          let (w1, q1, r1) =
            remove_times-owned n o {c = record c { pending_removals = rest }} (BoundTo-update b) in
          let (w2, q2, r2) =
            drain_loop-owned rounds {c = record c { pending_removals = rest; world = w1 }}
              (BoundTo-update b) (omega (arith, popped.shorter)) in
          (
            w2,
            drain_loop_round rounds c o n rest q ∙ simp (q1, q2),
            (λ x. ground (arith, r1 x, r2 x, popped.totals x)),
          )
    ]

    drain_pending-owned :
        {c : Client g}
        → BoundTo me c
        → c.draining ≡ false
        → (w : g.World) × (drain_pending_managed_oop_removals g me c
            ≡ (ok tt, record c { world = w; pending_removals = []; draining = false }))
          × Removed (λ x. total x c.pending_removals) c.world w
    unfolding drain_pending_managed_oop_removals
    drain_pending-owned {c} b idle =
        let (w, q, r) =
          drain_loop-owned (suc (length c.pending_removals)) {c = record c { draining = true }}
            (BoundTo-update b) (omega arith) in
        (
          w,
          if-false (c.draining || not (can_call_gci_on_current_thread g me c)) _ _
                (rw (can_call-owned b, idle))
              ∙ rw q,
          r,
        )

    pub activate_session-owned :
        {c : Client g}
        → BoundTo me c
        → c.draining ≡ false
        → (w : g.World) × (activate_session g me c
            ≡ (ok tt, record c { world = w; pending_removals = []; draining = false }))
          × Removed (λ x. total x c.pending_removals) c.world w
    unfolding activate_session
    activate_session-owned {c} b idle =
        let w1 = g.set_session_id c.session_id c.world in
        let (w, q, r) = drain_pending-owned {c = record c { world = w1 }} (BoundTo-update b) idle in
        (
          w,
          rw (activate-owned b, q),
          (λ x. r x ∙ rw (exported-set_session_id c.session_id x c.world)),
        )

    pub require_login-owned :
        {c : Client g}
        → BoundTo me c
        → c.draining ≡ false
        → (w : g.World) × (require_login g me c
            ≡ (ok tt, record c { world = w; pending_removals = []; draining = false }))
          × Removed (λ x. total x c.pending_removals) c.world w
    unfolding require_login
    require_login-owned {c} b idle =
        let (w, q, r) = activate_session-owned b idle in
        (w, if-true c.logged_in _ _ b.logged ∙ q, r)

    -- What a call does behind its guard changes the world only, and leaves the export set as it is.
    abbrev pub LeavesExports : Method g (Unit {0}) → Type 0
    LeavesExports rest =
        (c : Client g)
        → (w : g.World) × ((rest c).1 ≡ record c { world = w })
          × ((x : ℕ) → exported w x ≡ exported c.world x)

    -- A call of the session, which may raise: its guard, and then such calls of the library.
    pub record IsCall (m : Method g (Unit {0})) : Type 0 where
      pub rest : Method g (Unit {0})
      pub starts : (c : Client g) → m c ≡ (require_login g me >> rest) c
      pub leaves : LeavesExports rest

    -- A call of the owner drains the removals that are left.
    pub call-owned :
        (m : Method g (Unit {0})) {c : Client g}
        → IsCall m
        → BoundTo me c
        → c.draining ≡ false
        → (w : g.World) × ((m c).1
            ≡ record c { world = w; pending_removals = []; draining = false })
          × Removed (λ x. total x c.pending_removals) c.world w
    call-owned m {c} call b idle =
        let (w, q, r) = require_login-owned b idle in
        let (v, p, k) =
          call.leaves (record c { world = w; pending_removals = []; draining = false }) in
        (v, ap (λ y. y.1) (call.starts c) ∙ rw q p, (λ x. k x ∙ r x))
