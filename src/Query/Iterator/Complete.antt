-- ===== src/Query/Iterator/Complete.antt =====
-- `list(collection.iter())`: what the whole iteration gives, from the call of the constructor on.
use mathlib.Core.Option
use gemstone_py.Prelude.{
  All, ℕ, ◌≤◌, ◌<◌, ◌≡◌, refl, sym, ap, subst, false, Option, none, some, List, [], map, length,
  nat_eq, ◌==◌,
}
use gemstone_py.Prelude.Exec.{Result, ok}
use gemstone_py.Prelude.Texts.{Text, codes}
use gemstone_py.Oop.{oop_nil}
use gemstone_py.Batch.Stream.{write_lines}
use gemstone_py.Query.{Fields, Python, Stone, QueryError, raised}
use gemstone_py.Query.Sources.{array_range_source}
use gemstone_py.Query.Iterator.{
  Cursor, in_cursor, fresh, open_iterator, open_session, use_session, look_at, next, refill,
  fill_buffer, exhaust, list_records, leave,
}
use gemstone_py.Query.Iterator.Slices.{slice, drop}
use gemstone_py.Query.Iterator.Chunks.{Printed, at, at-Yields}
use gemstone_py.Query.Iterator.Yields.{Yields, Ends, exhaust-Ends, leave-Ends}

module _ {Scalar : Type 0} (stone : Stone Scalar) (s : stone.Session) where
  -- The session that the caller gave, or one that the iterator gets for itself.
  abbrev pub Uses : Option stone.Session → Type 0
  Uses (some given) = given ≡ s
  Uses none = (w : stone.World) → (stone.enter w).0 ≡ ok s

  abbrev pub owned : Option stone.Session → Option stone.Session
  owned (some given) = none
  owned none = some s

module _ {Scalar : Type 0} (py : Python Scalar) (stone : Stone Scalar)
    (dumps : Fields Scalar → Text) (s : stone.Session) (collection oop : ℕ)
    (stored : List (Fields Scalar)) (printed : All (Printed py dumps) stored)
    (writes : (start stop : ℕ) (w : stone.World)
      → 1 ≤ start
      → start ≤ stop
      → stop ≤ length stored
      → (stone.eval s (array_range_source oop start stop) w).0
        ≡ ok (write_lines (map dumps (slice start stop stored))))
    (chunk_size : ℕ) (factory : stone.Session → stone.World → Result QueryError ℕ × stone.World)
    (found : (w : stone.World) → (factory s w).0 ≡ ok collection)
    (not_nil : (collection == oop_nil) ≡ false)
    (as_array : (w : stone.World)
      → (stone.perform_oop s collection (codes "asArray") [] w).0 ≡ ok oop)
    (sized : (w : stone.World)
      → (stone.perform_value s oop (codes "size") w).0 ≡ ok (length stored)) where
  look_at_lem :
      (c : Cursor py stone)
      → (d : stone.World) × (look_at py stone s collection c ≡ (
        ok tt,
        record c { session = some s; array_oop = some oop; size = length stored; world = d },
      ))
  unfolding look_at in_cursor raised
  look_at_lem c = (
    (stone.perform_value s oop (codes "size")
        (stone.perform_oop s collection (codes "asArray") [] c.world).1).1,
    rw (
      not_nil,
      as_array c.world,
      sized (stone.perform_oop s collection (codes "asArray") [] c.world).1,
    ),
  )

  opened :
      (provided : Option stone.Session) (w : stone.World)
      → Uses stone s provided
      → (d : stone.World) × (open_iterator py stone chunk_size factory (fresh py stone provided w)
          ≡ (
            ok tt,
            at py stone dumps s oop stored printed writes chunk_size factory provided
                (owned stone s provided)
                0
                []
                0
                0
                d,
          ))
  unfolding open_iterator open_session use_session in_cursor raised
  opened (some given) w h = rw (h, found w) (look_at_lem _)
  opened none w h = rw (h w, found (stone.enter w).1) (look_at_lem _)

  -- The first call of `__next__` opens the iterator.
  next-opened :
      (provided : Option stone.Session) (w d : stone.World)
      → let c : Cursor py stone =
          at py stone dumps s oop stored printed writes chunk_size factory provided
            (owned stone s provided)
            0
            []
            0
            0
            d in
        open_iterator py stone chunk_size factory (fresh py stone provided w) ≡ (ok tt, c)
        → next py stone chunk_size factory (fresh py stone provided w)
          ≡ next py stone chunk_size factory c
  unfolding next refill fill_buffer
  next-opened provided w d o = rw o (unfold open_iterator open_session in refl)

  pub fresh-Yields :
      (provided : Option stone.Session) (w : stone.World)
      → 1 ≤ chunk_size
      → Uses stone s provided
      → (d : Cursor py stone) × (open_iterator py stone chunk_size factory
            (fresh py stone provided w)
          ≡ (ok tt, d))
        × (next py stone chunk_size factory (fresh py stone provided w)
            ≡ next py stone chunk_size factory d)
        × Yields py stone chunk_size factory (owned stone s provided) stored d
  unfolding drop
  fresh-Yields provided w chunk h =
      let (d, o) = opened provided w h in
      (
        _,
        o,
        next-opened provided w d o,
        at-Yields py stone dumps s oop stored printed writes chunk_size factory provided
            (owned stone s provided) stored 0 0 0 d [] chunk refl,
      )

  listed :
      (fuel : ℕ) (c : Cursor py stone)
      → (open_iterator py stone chunk_size factory c).0 ≡ ok tt
      → list_records py stone chunk_size factory fuel c
        ≡ Option.map (leave py stone) (
            exhaust py stone chunk_size factory fuel
              (open_iterator py stone chunk_size factory c).1)
  unfolding list_records
  listed fuel c h = rw (h, list_records)

  -- Where the server writes each record on a line that reads back and the calls that open the
  -- iterator return, list() of an iterator comes to every stored record, in order, within as
  -- many rounds as there are records and one more. The iterator is then closed, and a session
  -- that it took for itself has been left, by the exit that is the last call; only that exit
  -- can raise.
  pub list_records_lem :
      (fuel : ℕ) (provided : Option stone.Session) (w : stone.World)
      → 1 ≤ chunk_size
      → Uses stone s provided
      → length stored < fuel
      → Ends py stone chunk_size factory
          (owned stone s provided)
          stored
          (list_records py stone chunk_size factory fuel (fresh py stone provided w))
  list_records_lem fuel provided w chunk h enough =
      let (d, o, n, y) = fresh-Yields provided w chunk h in
      rw (listed fuel _ (ap (λ r. r.0) o)) (
        leave-Ends py stone chunk_size factory (owned stone s provided) stored _ (
          subst
            (λ t.
              Ends py stone chunk_size factory (owned stone s provided) stored
                (exhaust py stone chunk_size factory fuel t))
            (sym (ap (λ r. r.1) o))
            (exhaust-Ends py stone chunk_size factory (owned stone s provided) fuel stored d y
              enough)))
