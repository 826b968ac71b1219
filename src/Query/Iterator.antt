-- ===== src/Query/Iterator.antt =====
-- `GSCollectionIterator` of gemstone_py/gsquery.py: a cursor over the records of a collection, read in
-- chunks.
pub mod Slices
pub mod Yields
pub mod Chunks
pub mod Complete
use mathlib.Core.Option
use gemstone_py.Prelude.{
  ℕ, zero, suc, ◌+◌, ◌-◌, min, Bool, true, false, Option, none, some, List, [], ◌∷◌, nat_eq, ◌==◌,
  ltb, if◌then◌else◌,
}
use gemstone_py.Prelude.Exec.{Result, ok, err}
use gemstone_py.Prelude.Action.{Action, pure, raise, ◌>>=◌, ◌>>◌}
use gemstone_py.Prelude.Texts.{Text, codes}
use gemstone_py.Oop.{oop_nil}
use gemstone_py.Session.{Fault}
use gemstone_py.Query.{
  Fields, Python, Stone, QueryError, fault, value_error, json_error, not_usable, stop_iteration,
  key_error, type_error, of_session,
}
use gemstone_py.Query.Sources.{array_range_source, load_records}

module _ {Scalar : Type 0} (py : Python Scalar) (stone : Stone Scalar) where
  open stone use {World, Session}

  -- The fields of the iterator that change, and the world. `scope` is `_session_cm`, by the session
  -- that it was entered with.
  pub record Cursor : Type 0 where
    pub provided : Option Session
    pub scope : Option Session
    pub session : Option Session
    pub array_oop : Option ℕ
    pub size : ℕ
    pub next_index : ℕ
    pub buffer : List (Fields Scalar)
    pub closed : Bool
    pub chunks_fetched : ℕ
    pub yielded : ℕ
    pub world : World

  abbrev Iteration : Type 0 → Type 0
  Iteration A = Action Cursor QueryError A

  unfoldable pub in_cursor :
      {A : Type 0} → Cursor → Result QueryError A × World → Result QueryError A × Cursor
  in_cursor c (r, w) = (r, record c { world = w })

  abbrev pub within : {A : Type 0} → Action World QueryError A → Iteration A
  within m c = in_cursor c (m c.world)

  -- A call of the session.
  abbrev pub call : {A : Type 0} → Action World Fault A → Iteration A
  call m = within (of_session m)

  abbrev modify : (Cursor → Cursor) → Iteration (Unit {0})
  modify f c = (ok tt, f c)

  abbrev pub fresh : Option Session → World → Cursor
  fresh provided w = record {
    provided = provided;
    scope = none;
    session = none;
    array_oop = none;
    size = 0;
    next_index = 1;
    buffer = [];
    closed = false;
    chunks_fetched = 0;
    yielded = 0;
    world = w;
  }

  -- `__init__`
  unfoldable pub new_iterator : ℕ → Option Session → World → Result QueryError (Unit {0}) × Cursor
  new_iterator chunk_size provided w =
      (if ltb chunk_size 1 then err value_error else ok tt, fresh provided w)

  unfoldable pub exit_scope : Option Session → Iteration (Unit {0})
  exit_scope none = pure tt
  exit_scope (some s) = call (stone.exit s)

  unfoldable pub close : Iteration (Unit {0})
  unfolding exit_scope
  close c =
      if c.closed
      then (ok tt, c)
      else exit_scope c.scope (record c { closed = true; scope = none; session = none })

  -- A scope that cannot be entered is left again by its own generator.
  use_session : Option Session → Iteration Session
  use_session (some s) c = (ok s, c)
  use_session none c =
      (do s ← call stone.enter; modify (λ d. record d { scope = some s }); pure s) c

  -- `collection_oop` is what the factory of the iterator gave.
  look_at : Session → ℕ → Iteration (Unit {0})
  look_at s collection_oop =
      if collection_oop == oop_nil
      then modify (λ d. record d { session = some s; size = 0 })
      else (do
        modify (λ d. record d { session = some s })
        oop ← call (stone.perform_oop s collection_oop (codes "asArray") [])
        modify (λ d. record d { array_oop = some oop })
        n ← call (stone.perform_value s oop (codes "size"))
        modify (λ d. record d { size = n }))

  unfoldable pub prepend :
      {A : Type 0}
      → A
      → Option (Result QueryError (List A) × Cursor)
      → Option (Result QueryError (List A) × Cursor)
  prepend first none = none
  prepend first (some (ok others, c)) = some (ok (first ∷ others), c)
  prepend first (some (err e, c)) = some (err e, c)

  -- What a loop that has `a` to give makes of an exception of `__next__`.
  unfoldable pub stopped : {A : Type 0} → A → QueryError → Result QueryError A
  stopped a stop_iteration = ok a
  stopped a (fault e) = err (fault e)
  stopped a value_error = err value_error
  stopped a (key_error key) = err (key_error key)
  stopped a type_error = err type_error
  stopped a json_error = err json_error
  stopped a not_usable = err not_usable

  -- `__exit__` behind a block that came to `r`.
  unfoldable pub leave_with :
      {A : Type 0}
      → Result QueryError A
      → Result QueryError (Unit {0}) × Cursor
      → Result QueryError A × Cursor
  leave_with r (ok u, c) = (r, c)
  leave_with r (err e, c) = (err e, c)

  unfoldable pub leave : {A : Type 0} → Result QueryError A × Cursor → Result QueryError A × Cursor
  unfolding leave_with close
  leave (r, c) = leave_with r (close c)

  module _ (chunk_size : ℕ) (factory : Session → Action World QueryError ℕ) where
    open_session : Option Session → Iteration (Unit {0})
    unfolding use_session look_at
    open_session (some s) c = (ok tt, c)
    open_session none c =
        (do
          s ← use_session c.provided
          collection_oop ← within (factory s)
          look_at s collection_oop)
          c

    -- `_open`
    unfoldable pub open_iterator : Iteration (Unit {0})
    unfolding open_session
    open_iterator c = if c.closed then (err not_usable, c) else open_session c.session c

    -- What the reply to a chunk is made of.
    keep_chunk : ℕ → Text → Iteration (Unit {0})
    unfolding load_records
    keep_chunk stop raw c = elim (load_records py raw) [
      | none ↦ (err json_error, c)
      | some records ↦ (
        ok tt,
        record c { buffer = records; chunks_fetched = c.chunks_fetched + 1; next_index = stop + 1 },
      )
    ]

    read_chunk : Option Session → Option ℕ → Iteration (Unit {0})
    unfolding keep_chunk array_range_source
    read_chunk none array_oop c = (err not_usable, c)
    read_chunk (some s) none c = (err not_usable, c)
    read_chunk (some s) (some oop) c =
        let stop = min (c.next_index + chunk_size - 1) c.size in
        (do
          raw ← call (stone.eval s (array_range_source oop c.next_index stop))
          keep_chunk stop raw)
          c

    -- `_fill_buffer`
    unfoldable pub fill_buffer : Iteration (Unit {0})
    unfolding read_chunk
    fill_buffer = do
      open_iterator
      (λ c. if ltb c.size c.next_index then (ok tt, c) else read_chunk c.session c.array_oop c)

    -- `if not self._buffer: self._fill_buffer()`
    unfoldable pub refill : Iteration (Unit {0})
    unfolding fill_buffer
    refill c = elim c.buffer [ [] ↦ fill_buffer c | _ ∷ _ ↦ (ok tt, c) ]

    unfoldable pub take_first : List (Fields Scalar) → Iteration (Fields Scalar)
    unfolding close
    take_first [] c = (do close; raise stop_iteration) c
    take_first (first ∷ rest) c = (ok first, record c { yielded = c.yielded + 1; buffer = rest })

    -- `__next__`
    unfoldable pub next : Iteration (Fields Scalar)
    unfolding refill take_first
    next = do refill; (λ c. take_first c.buffer c)

    -- `list(iterator)`, on fuel; `none` is fuel that ran out.
    unfoldable pub exhaust : ℕ → Cursor → Option (Result QueryError (List (Fields Scalar)) × Cursor)
    unfolding next prepend stopped
    exhaust zero c = none
    exhaust (suc fuel) c = elim (next c).0 [
      | ok first ↦ prepend first (exhaust fuel (next c).1)
      | err e ↦ some (stopped [] e, (next c).1)
    ]

    -- `with iterator: return list(iterator)`
    unfoldable pub list_records :
        ℕ → Cursor → Option (Result QueryError (List (Fields Scalar)) × Cursor)
    unfolding open_iterator exhaust leave
    list_records fuel c = elim (open_iterator c).0 [
      | err e ↦ some (err e, (open_iterator c).1)
      | ok u ↦ Option.map leave (exhaust fuel (open_iterator c).1)
    ]
