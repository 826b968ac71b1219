-- ===== src/Query/Iterator/Chunks.antt =====
-- An iterator over an array whose records the server writes gives them all, in order.
use gemstone_py.Prelude.{
  ℕ, ◌+◌, ◌-◌, ◌≤◌, ◌<◌, min, ◌≡◌, refl, ◌∙◌, ap, inl, inr, true, false, Option, none, some, List,
  [], ◌∷◌, ◌++◌, length, map, arith, ltb, All, List-cases,
}
use gemstone_py.Prelude.Exec.{Result, ok, err}
use gemstone_py.Prelude.Texts.{Text}
use gemstone_py.Session.{Fault}
use gemstone_py.Batch.Stream.{write_lines}
use gemstone_py.Batch.Lines.{IsOneLine, splitlines-write_lines}
use gemstone_py.Query.{Fields, Python, Stone, QueryError, fault, stop_iteration, raised}
use gemstone_py.Query.Sources.{array_range_source, is_blank, load_lines, load_records}
use gemstone_py.Query.Iterator.{
  Cursor, in_cursor, close, fill_buffer, exit_scope, refill, take_first, open_iterator,
  open_session, read_chunk, keep_chunk, next,
}
use gemstone_py.Query.Iterator.Yields.{exit_scope_lem, Yields}
use gemstone_py.Query.Iterator.Slices.{
  slice, drop, drop-eq-nil, drop-eq-cons, slice-append-drop, slice_pos, All-slice,
}

cons_head {ℓ} : {A : Type ℓ} {x y : A} {xs ys : List A} → x ∷ xs ≡ y ∷ ys → x ≡ y
cons_head h = cc

cons_tail {ℓ} : {A : Type ℓ} {x y : A} {xs ys : List A} → x ∷ xs ≡ y ∷ ys → xs ≡ ys
cons_tail h = cc

-- A record as the server writes it: on one line that is not blank, and that Python reads back.
abbrev pub Printed :
    {Scalar : Type 0} → Python Scalar → (Fields Scalar → Text) → Fields Scalar → Type 0
Printed py dumps r =
    IsOneLine (dumps r) × (is_blank (dumps r) ≡ false) × (py.loads (dumps r) ≡ some r)

module _ {Scalar : Type 0} (py : Python Scalar) (dumps : Fields Scalar → Text) where
  load_lines-dumps :
      (rs : List (Fields Scalar))
      → All (Printed py dumps) rs
      → load_lines py (map dumps rs) ≡ some rs
  unfolding load_lines
  load_lines-dumps [] h = refl
  load_lines-dumps (r ∷ rs) h = rw (h.0.1, h.0.2, load_lines-dumps rs h.1)

  dumps-IsOneLine :
      (rs : List (Fields Scalar)) → All (Printed py dumps) rs → All IsOneLine (map dumps rs)
  dumps-IsOneLine [] h = tt
  dumps-IsOneLine (r ∷ rs) h = (h.0.0, dumps-IsOneLine rs h.1)

  load_records-dumps :
      (rs : List (Fields Scalar))
      → All (Printed py dumps) rs
      → load_records py (write_lines (map dumps rs)) ≡ some rs
  unfolding load_records
  load_records-dumps rs h =
      ap (load_lines py) (splitlines-write_lines (map dumps rs) (dumps-IsOneLine rs h))
      ∙ load_lines-dumps rs h

module _ {Scalar : Type 0} (py : Python Scalar) (stone : Stone Scalar)
    (dumps : Fields Scalar → Text) (s : stone.Session) (oop : ℕ) (stored : List (Fields Scalar))
    (printed : All (Printed py dumps) stored)
    (writes : (start stop : ℕ) (w : stone.World)
      → 1 ≤ start
      → start ≤ stop
      → stop ≤ length stored
      → (stone.eval s (array_range_source oop start stop) w).0
        ≡ ok (write_lines (map dumps (slice start stop stored))))
    (chunk_size : ℕ) (factory : stone.Session → stone.World → Result QueryError ℕ × stone.World)
    (provided scope : Option stone.Session) where
  -- The cursor behind the first `k` records, but for those in the buffer.
  abbrev pub at : ℕ → List (Fields Scalar) → ℕ → ℕ → stone.World → Cursor py stone
  at k buffer chunks yielded w = record {
    provided = provided;
    scope = scope;
    session = some s;
    array_oop = some oop;
    size = length stored;
    next_index = k + 1;
    buffer = buffer;
    closed = false;
    chunks_fetched = chunks;
    yielded = yielded;
    world = w;
  }

  keep_chunk_lem :
      (stop : ℕ) (raw : Text) {rs : List (Fields Scalar)} (c : Cursor py stone)
      → load_records py raw ≡ some rs
      → keep_chunk py stone chunk_size factory stop raw c ≡ (
        ok tt,
        record c { buffer = rs; chunks_fetched = c.chunks_fetched + 1; next_index = stop + 1 },
      )
  unfolding keep_chunk
  keep_chunk_lem stop raw c h = rw (h, keep_chunk)

  fill_buffer-at :
      (k chunks yielded : ℕ) (w : stone.World)
      → 1 ≤ chunk_size
      → k < length stored
      → let stop = min (k + 1 + chunk_size - 1) (length stored) in
        fill_buffer py stone chunk_size factory (at k [] chunks yielded w) ≡ (
          ok tt,
          at stop
              (slice (k + 1) stop stored)
              (chunks + 1)
              yielded
              (stone.eval s (array_range_source oop (k + 1) stop) w).1,
        )
  unfolding fill_buffer open_iterator read_chunk in_cursor raised
  fill_buffer-at k chunks yielded w chunk h =
      let stop : ℕ = min (k + 1 + chunk_size - 1) (length stored) in
      let more : ltb (length stored) (k + 1) ≡ false = ground arith in
      rw (more, writes (k + 1) stop w (omega arith) (ground arith) (ground arith))
        (keep_chunk_lem stop _ _ (
          load_records-dumps py dumps (slice (k + 1) stop stored)
            (All-slice (Printed py dumps) (k + 1) stop stored printed)))

  next-buffered :
      (k chunks yielded : ℕ) (w : stone.World) (b : Fields Scalar) (bs : List (Fields Scalar))
      → next py stone chunk_size factory (at k (b ∷ bs) chunks yielded w)
        ≡ (ok b, at k bs chunks (yielded + 1) w)
  unfolding next refill take_first
  next-buffered k chunks yielded w b bs = refl

  next-chunk :
      (k chunks yielded : ℕ) (w : stone.World) {b : Fields Scalar} {bs : List (Fields Scalar)}
      → 1 ≤ chunk_size
      → k < length stored
      → slice (k + 1) (min (k + 1 + chunk_size - 1) (length stored)) stored ≡ b ∷ bs
      → next py stone chunk_size factory (at k [] chunks yielded w) ≡ (
        ok b,
        at
            (min (k + 1 + chunk_size - 1) (length stored))
            bs
            (chunks + 1)
            (yielded + 1)
            (stone.eval s
              (array_range_source oop (k + 1) (min (k + 1 + chunk_size - 1) (length stored)))
              w).1,
      )
  unfolding next refill take_first
  next-chunk k chunks yielded w chunk h e = rw (fill_buffer-at k chunks yielded w chunk h, e)

  -- The cursor at the end, before its scope is left.
  abbrev last : ℕ → ℕ → ℕ → stone.World → Cursor py stone
  last k chunks yielded w = record (at k [] chunks yielded w) {
    closed = true;
    scope = none;
    session = none;
  }

  next-last :
      (k chunks yielded : ℕ) (w : stone.World) {d : Cursor py stone}
      → length stored ≤ k
      → exit_scope py stone scope (last k chunks yielded w) ≡ (ok tt, d)
      → next py stone chunk_size factory (at k [] chunks yielded w) ≡ (err stop_iteration, d)
  unfolding next refill fill_buffer open_iterator open_session take_first close
  next-last k chunks yielded w h e =
      let done : ltb (length stored) (k + 1) ≡ true = ground arith in rw (done, e)

  next-refused :
      (k chunks yielded : ℕ) (w : stone.World) (x : Fault) {d : Cursor py stone}
      → length stored ≤ k
      → exit_scope py stone scope (last k chunks yielded w) ≡ (err (fault x), d)
      → next py stone chunk_size factory (at k [] chunks yielded w) ≡ (err (fault x), d)
  unfolding next refill fill_buffer open_iterator open_session take_first close
  next-refused k chunks yielded w x h e =
      let done : ltb (length stored) (k + 1) ≡ true = ground arith in rw (done, e)

  Yields-nil :
      (k chunks yielded : ℕ) (w : stone.World)
      → length stored ≤ k
      → Yields py stone chunk_size factory scope [] (at k [] chunks yielded w)
  Yields-nil k chunks yielded w h = (
    (refl, refl),
    elim (exit_scope_lem py stone scope (last k chunks yielded w)) [
      | inl p ↦ (
        stop_iteration,
        _,
        next-last k chunks yielded w h p,
        (refl, refl, refl, (w, refl)),
        inl refl,
      )
      | inr (owned, e, o, x, p) ↦ (
        fault e,
        _,
        next-refused k chunks yielded w e h p,
        (refl, refl, refl, (w, refl)),
        inr (owned, w, o, x),
      )
    ],
  )

  Yields-cons :
      (c d : Cursor py stone) (b x : Fields Scalar) (bs xs : List (Fields Scalar))
      → (c.closed ≡ false) × (c.scope ≡ scope)
      → next py stone chunk_size factory c ≡ (ok b, d)
      → b ∷ bs ≡ x ∷ xs
      → Yields py stone chunk_size factory scope xs d
      → Yields py stone chunk_size factory scope (x ∷ xs) c
  Yields-cons c d b x bs xs o e h rest = (o, (d, rw (← cons_head h) e, rest))

  pub at-Yields :
      (xs : List (Fields Scalar)) (k chunks yielded : ℕ) (w : stone.World)
      (buffer : List (Fields Scalar))
      → 1 ≤ chunk_size
      → buffer ++ drop k stored ≡ xs
      → Yields py stone chunk_size factory scope xs (at k buffer chunks yielded w)
  at-Yields [] k chunks yielded w (b ∷ bs) chunk h = cc
  at-Yields [] k chunks yielded w [] chunk h =
      Yields-nil k chunks yielded w (drop-eq-nil k stored h)
  at-Yields (x ∷ xs) k chunks yielded w (b ∷ bs) chunk h =
      Yields-cons _ _ b x (bs ++ drop k stored) xs (refl, refl)
        (next-buffered k chunks yielded w b bs) h
        (at-Yields xs k chunks (yielded + 1) w bs chunk (cons_tail h))
  at-Yields (x ∷ xs) k chunks yielded w [] chunk h =
      let stop : ℕ = min (k + 1 + chunk_size - 1) (length stored) in
      let inside : k < length stored = drop-eq-cons k stored h in
      let ahead : k < stop = ground arith in
      elim (List-cases (slice (k + 1) stop stored)) [
        | inl nothing ↦
            absurd (omega (arith, slice_pos k stop stored ahead inside, ap length nothing))
        | inr (b, bs, e) ↦
            let left : b ∷ (bs ++ drop stop stored) ≡ x ∷ xs =
              (rw e at (slice-append-drop k stop stored (omega arith))) ∙ h in
            Yields-cons _ _ b x (bs ++ drop stop stored) xs (refl, refl)
              (next-chunk k chunks yielded w chunk inside e) left
              (at-Yields xs stop (chunks + 1) (yielded + 1) _ bs chunk (cons_tail left))
      ]
