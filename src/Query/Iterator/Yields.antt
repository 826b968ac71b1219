-- ===== src/Query/Iterator/Yields.antt =====
-- What an iterator has still to give, and the loops over it.
use mathlib.Core.Option
use gemstone_py.Prelude.{
  ℕ, zero, suc, ◌<◌, ◌≡◌, refl, sym, subst, ◌∙◌, ap, ◌⊎◌, inl, inr, true, false, Option, none, some,
  List, [], ◌∷◌, length, arith,
}
use gemstone_py.Prelude.Exec.{Result, ok, err, Result-cases}
use gemstone_py.Session.{Fault}
use gemstone_py.Query.{Fields, Python, Stone, QueryError, fault, stop_iteration, raised}
use gemstone_py.Query.Iterator.{
  Cursor, in_cursor, exit_scope, next, prepend, stopped, exhaust, leave, leave_with, close,
}

module _ {Scalar : Type 0} (py : Python Scalar) (stone : Stone Scalar) where
  -- The world behind the exit of a session of its own; a session that was given is not left.
  abbrev pub exited : Option stone.Session → stone.World → stone.World
  exited none w = w
  exited (some owned) w = (stone.exit owned w).1

  -- What the exit of a scope comes to.
  pub exit_scope_lem :
      (o : Option stone.Session) (c : Cursor py stone)
      → (exit_scope py stone o c ≡ (ok tt, record c { world = exited o c.world }))
        ⊎ ((owned : stone.Session) × (e : Fault) × (o ≡ some owned)
            × ((stone.exit owned c.world).0 ≡ err e)
            × (exit_scope py stone o c ≡ (err (fault e), record c { world = exited o c.world })))
  unfolding exit_scope in_cursor raised
  exit_scope_lem none c = inl refl
  exit_scope_lem (some owned) c = elim (Result-cases (stone.exit owned c.world).0) [
    | inl (u, p) ↦ inl (rw p)
    | inr (e, p) ↦ inr (owned, e, refl, p, rw p)
  ]

module _ {Scalar : Type 0} (py : Python Scalar) (stone : Stone Scalar) (chunk_size : ℕ)
    (factory : stone.Session → stone.World → Result QueryError ℕ × stone.World)
    (scope : Option stone.Session) where
  -- The iterator is closed and holds no session, and the last call was the exit of the session that
  -- it got for itself.
  abbrev pub Released : Cursor py stone → Type 0
  Released d =
      (d.closed ≡ true)
      × (d.session ≡ none)
      × (d.scope ≡ none)
      × ((w : stone.World) × (d.world ≡ exited py stone scope w))

  -- The exit of the scope raised it.
  abbrev RaisedByExit : QueryError → Type 0
  RaisedByExit (fault e) =
      (owned : stone.Session) × (w : stone.World) × (scope ≡ some owned)
      × ((stone.exit owned w).0 ≡ err e)
  RaisedByExit e = ⊥

  -- The iterator has `xs` still to give, and then gives its session back.
  abbrev pub Yields : List (Fields Scalar) → Cursor py stone → Type 0
  Yields [] c =
      ((c.closed ≡ false) × (c.scope ≡ scope))
      × ((e : QueryError) × (d : Cursor py stone) × (next py stone chunk_size factory c
            ≡ (err e, d))
          × Released d
          × ((e ≡ stop_iteration) ⊎ RaisedByExit e))
  Yields (x ∷ xs) c =
      ((c.closed ≡ false) × (c.scope ≡ scope))
      × ((d : Cursor py stone) × (next py stone chunk_size factory c ≡ (ok x, d)) × Yields xs d)

  pub Yields-open :
      (xs : List (Fields Scalar)) (c : Cursor py stone)
      → Yields xs c
      → (c.closed ≡ false) × (c.scope ≡ scope)
  Yields-open [] c y = y.0
  Yields-open (x ∷ xs) c y = y.0

  -- How a loop ends: with `xs`, unless the exit of the scope raised, and the session given back.
  abbrev pub Ends : {A : Type 0} → A → Option (Result QueryError A × Cursor py stone) → Type 0
  Ends xs none = ⊥
  Ends xs (some (ok ys, d)) = (ys ≡ xs) × Released d
  Ends xs (some (err e, d)) = RaisedByExit e × Released d

  abbrev Records : Type 0
  Records = List (Fields Scalar)

  pub prepend-Ends :
      {A : Type 0} (x : A) (xs : List A) (o : Option (Result QueryError (List A) × Cursor py stone))
      → Ends xs o
      → Ends (x ∷ xs) (prepend py stone x o)
  unfolding prepend
  prepend-Ends x xs none h = h
  prepend-Ends x xs (some (ok others, d)) h = (ap (◌∷◌ x) h.0, h.1)
  prepend-Ends x xs (some (err e, d)) h = h

  exhaust_first :
      (fuel : ℕ) (c : Cursor py stone) (x : Fields Scalar) (xs : Records)
      → (next py stone chunk_size factory c).0 ≡ ok x
      → Ends xs (exhaust py stone chunk_size factory fuel (next py stone chunk_size factory c).1)
      → Ends (x ∷ xs) (exhaust py stone chunk_size factory (suc fuel) c)
  unfolding exhaust
  exhaust_first fuel c x xs e h = rw (e, exhaust) (prepend-Ends x xs _ h)

  exhaust_over :
      (fuel : ℕ) (c : Cursor py stone) {e : QueryError}
      → (next py stone chunk_size factory c).0 ≡ err e
      → exhaust py stone chunk_size factory (suc fuel) c
        ≡ some (stopped py stone [] e, (next py stone chunk_size factory c).1)
  unfolding exhaust
  exhaust_over fuel c h = rw (h, exhaust)

  pub stopped-Ends :
      {A : Type 0} (a : A) (e : QueryError) (d : Cursor py stone)
      → Released d
      → (e ≡ stop_iteration) ⊎ RaisedByExit e
      → Ends a (some (stopped py stone a e, d))
  unfolding stopped
  stopped-Ends a e d r (inl p) = rw p (refl, r)
  stopped-Ends a (fault e) d r (inr p) = (p, r)
  stopped-Ends a _ d r (inr p) = absurd p

  pub exhaust-Ends :
      (fuel : ℕ) (xs : Records) (c : Cursor py stone)
      → Yields xs c
      → length xs < fuel
      → Ends xs (exhaust py stone chunk_size factory fuel c)
  exhaust-Ends zero xs c y h = absurd (omega arith)
  exhaust-Ends (suc fuel) [] c (o, (e, d, n, r, why)) h =
      rw (exhaust_over fuel c (ap (λ t. t.0) n)) (
        subst (λ t. Ends {A = Records} [] (some (stopped py stone [] e, t))) (sym (ap (λ t. t.1) n))
          (stopped-Ends [] e d r why))
  exhaust-Ends (suc fuel) (x ∷ xs) c (o, (d, n, rest)) h =
      exhaust_first fuel c x xs (ap (λ t. t.0) n) (
        subst (λ t. Ends xs (exhaust py stone chunk_size factory fuel t)) (sym (ap (λ t. t.1) n))
          (exhaust-Ends fuel xs d rest (omega arith)))

  pub leave-Ends :
      {A : Type 0} (xs : A) (o : Option (Result QueryError A × Cursor py stone))
      → Ends xs o
      → Ends xs (Option.map (leave py stone) o)
  unfolding leave leave_with close
  leave-Ends xs none h = h
  leave-Ends xs (some (ok ys, d)) h = rw h.1.0 (h.0, (refl, h.1.1, h.1.2, h.1.3))
  leave-Ends xs (some (err e, d)) h = rw h.1.0 (h.0, (refl, h.1.1, h.1.2, h.1.3))

  -- A loop that stops on its own leaves the iterator open; its exit closes it.
  pub leave-open :
      {A : Type 0} (a : A) (d : Cursor py stone)
      → d.closed ≡ false
      → d.scope ≡ scope
      → Ends a (some (leave py stone (ok a, d)))
  unfolding leave leave_with close
  leave-open a d open_d own =
      let left : (w : stone.World) × (exited py stone d.scope d.world ≡ exited py stone scope w) =
        (d.world, ap (λ o. exited py stone o d.world) own) in
      elim (exit_scope_lem py stone d.scope
        (record d { closed = true; scope = none; session = none })) [
          | inl p ↦ rw (open_d, p) (refl, (refl, refl, refl, left))
          | inr (owned, e, o, x, p) ↦
              rw (open_d, p) ((owned, d.world, sym own ∙ o, x), (refl, refl, refl, left))
        ]
