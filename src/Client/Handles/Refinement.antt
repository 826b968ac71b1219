-- ===== src/Client/Handles/Refinement.antt =====
-- The handles of one thread against their specification: how often each object is held.
use gemstone_py.Prelude.{
  ℕ, zero, suc, ◌+◌, ◌-◌, ◌≡◌, refl, ◌∙◌, false, List, [], ◌∷◌, arith, nat_eq, ◌==◌, ltb,
  if◌then◌else◌,
}
use gemstone_py.Prelude.Exec.{Result, ok}
use gemstone_py.Prelude.Dict.{Dict, lookup, insert, erase, lookup-insert, lookup-erase}
use gemstone_py.Client.{Gci, ClientError, Client, Method}
use gemstone_py.Client.Session.{count_of}
use gemstone_py.Client.Exports.{retain_managed_oop, release_managed_oop}
use gemstone_py.Client.Refusal.{BoundTo, BoundTo-update}
use gemstone_py.Client.Handles.{ExportSet, IsCall, call-owned}
use gemstone_py.Client.Handles.Steps.{
  references, retain_more, retain_first-owned, release_none, release_more, release_last-owned,
}

-- What a thread does with its handles; `call` is a method of the session that goes to the server.
pub data HandleOp (g : Gci) : Type 0 where
  retain release : ℕ → HandleOp g
  call : Method g (Unit {0}) → HandleOp g

-- How often each object is held.
abbrev pub Held : Type 0
Held = ℕ → ℕ

abbrev specified : {g : Gci} → HandleOp g → Held → Held
specified (retain o) h x = if x == o then h x + 1 else h x
specified (release o) h x = if x == o then h x - 1 else h x
specified (call m) h x = h x

module _ (g : Gci) (me : ℕ) where
  abbrev pub perform_op : HandleOp g → Method g (Unit {0})
  perform_op (retain o) = retain_managed_oop g me o
  perform_op (release o) = release_managed_oop g me o
  perform_op (call m) = m

  -- The session counts what is held, and exports just what is held at all.
  pub record Represents (e : ExportSet g) (h : Held) (c : Client g) : Type 0 where
    pub bound : BoundTo me c
    pub idle : c.draining ≡ false
    pub settled : c.pending_removals ≡ []
    pub counted : (x : ℕ) → references x c ≡ h x
    pub exports : (x : ℕ) → e.exported c.world x ≡ ltb 0 (h x)

  module _ (e : ExportSet g) where
    abbrev After : Method g (Unit {0}) → Held → Client g → Type 0
    After m h c = (c' : Client g) × (m c ≡ (ok tt, c')) × Represents e h c'

    -- The reference counts and the world change, and nothing else.
    update-Represents :
        (h k : Held) (c : Client g) (counts : Dict ℕ ℕ) (w : g.World)
        → Represents e h c
        → ((x : ℕ) → count_of (lookup x counts) ≡ k x)
        → ((x : ℕ) → e.exported w x ≡ ltb 0 (k x))
        → Represents e k (record c { managed_oop_counts = counts; world = w })
    update-Represents h k c counts w r counted exports =
        let b = r.bound in
        record {
          bound = BoundTo-update b;
          idle = r.idle;
          settled = r.settled;
          counted = counted;
          exports = exports;
        }

    retain-Represents :
        (o n : ℕ) (h : Held) (c : Client g)
        → references o c ≡ n
        → Represents e h c
        → After (retain_managed_oop g me o) (specified {g = g} (retain o) h) c
    retain-Represents o zero h c q r =
        let w = g.set_session_id c.session_id c.world in
        (
          _,
          retain_first-owned g me o c e r.bound q,
          update-Represents h (specified {g = g} (retain o) h) c (insert o 1 c.managed_oop_counts)
              (e.add o w) r
              (λ x.
                ground (arith, lookup-insert x o 1 c.managed_oop_counts, r.counted x, r.counted o))
              (λ x. ground (
                arith,
                e.exported-add o x w,
                e.exported-set_session_id c.session_id x c.world,
                r.exports x,
                r.counted o,
              )),
        )
    retain-Represents o (suc n) h c q r = (
      _,
      retain_more g me o c n q,
      update-Represents h (specified {g = g} (retain o) h) c
          (insert o (suc n + 1) c.managed_oop_counts) c.world r
          (λ x.
            ground
              (arith, lookup-insert x o (suc n + 1) c.managed_oop_counts, r.counted x, r.counted o))
          (λ x. ground (arith, r.exports x, r.counted o)),
    )

    release-Represents :
        (o n : ℕ) (h : Held) (c : Client g)
        → references o c ≡ n
        → Represents e h c
        → After (release_managed_oop g me o) (specified {g = g} (release o) h) c
    release-Represents o zero h c q r = (
      _,
      release_none g me o c q,
      update-Represents h (specified {g = g} (release o) h) c c.managed_oop_counts c.world r
          (λ x. ground (arith, r.counted x, r.counted o))
          (λ x. ground (arith, r.exports x, r.counted o)),
    )
    release-Represents o (suc zero) h c q r =
        let w = g.set_session_id c.session_id c.world in
        (
          _,
          release_last-owned g me o c e r.bound q,
          update-Represents h (specified {g = g} (release o) h) c (erase o c.managed_oop_counts)
              (e.remove o w) r
              (λ x. ground (arith, lookup-erase x o c.managed_oop_counts, r.counted x, r.counted o))
              (λ x. ground (
                arith,
                e.exported-remove o x w,
                e.exported-set_session_id c.session_id x c.world,
                r.exports x,
                r.counted o,
              )),
        )
    release-Represents o (suc (suc n)) h c q r = (
      _,
      release_more g me o c n q,
      update-Represents h (specified {g = g} (release o) h) c
          (insert o (suc n) c.managed_oop_counts) c.world r
          (λ x.
            ground
              (arith, lookup-insert x o (suc n) c.managed_oop_counts, r.counted x, r.counted o))
          (λ x. ground (arith, r.exports x, r.counted o)),
    )

    call-Represents :
        (m : Method g (Unit {0})) (h : Held) (c : Client g)
        → IsCall g me e m
        → Represents e h c
        → Represents e h (m c).1
    call-Represents m h c called r =
        let b = r.bound in
        let (w, q, k) = call-owned g me e m called r.bound r.idle in
        rw q (record {
          bound = BoundTo-update b;
          idle = refl;
          settled = refl;
          counted = r.counted;
          exports = λ x. k x ∙ rw r.settled (r.exports x);
        })

    -- What an operation comes to: only a call may raise.
    abbrev Answers : HandleOp g → Result ClientError (Unit {0}) → Type 0
    Answers (retain o) a = a ≡ ok tt
    Answers (release o) a = a ≡ ok tt
    Answers (call m) a = Unit

    -- The calls are such calls of the session.
    abbrev pub Calls : List (HandleOp g) → Type 0
    Calls [] = Unit
    Calls (retain o ∷ ops) = Calls ops
    Calls (release o ∷ ops) = Calls ops
    Calls (call m ∷ ops) = IsCall g me e m × Calls ops

    -- The operations one after the other, with the specification beside them.
    abbrev pub Follows : List (HandleOp g) → Held → Client g → Type 0
    Follows [] h c = Represents e h c
    Follows (op ∷ ops) h c =
        Represents e h c
        × Answers op (perform_op op c).0
        × Follows ops (specified op h) (perform_op op c).1

    answered :
        (m : Method g (Unit {0})) (h : Held) (c : Client g)
        → After m h c
        → ((m c).0 ≡ ok tt) × Represents e h (m c).1
    answered m h c (c', q, r) = rw q (refl, r)

    -- Where each call of the thread that owns the session is the guard require_login and then
    -- calls of the library that leave the export set as it is, the session refines its
    -- specification at every step of a sequence of retains, releases and such calls,
    -- returning or raising: its reference counts are how often each object is held, and the
    -- export set of the library holds an object just when it is held at all. A retain or a
    -- release does not raise.
    pub perform_ops-refines :
        (ops : List (HandleOp g)) (h : Held) (c : Client g)
        → Calls ops
        → Represents e h c
        → Follows ops h c
    perform_ops-refines [] h c calls r = r
    perform_ops-refines (retain o ∷ ops) h c calls r =
        let (a, r1) =
          answered (retain_managed_oop g me o) (specified {g = g} (retain o) h) c
            (retain-Represents o (references o c) h c refl r) in
        (r, a, perform_ops-refines ops (specified {g = g} (retain o) h) _ calls r1)
    perform_ops-refines (release o ∷ ops) h c calls r =
        let (a, r1) =
          answered (release_managed_oop g me o) (specified {g = g} (release o) h) c
            (release-Represents o (references o c) h c refl r) in
        (r, a, perform_ops-refines ops (specified {g = g} (release o) h) _ calls r1)
    perform_ops-refines (call m ∷ ops) h c (called, calls) r = (
      r,
      tt,
      perform_ops-refines ops (specified {g = g} (call m) h) _ calls
          (call-Represents m h c called r),
    )
