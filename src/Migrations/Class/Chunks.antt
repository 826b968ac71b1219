-- ===== src/Migrations/Class/Chunks.antt =====
-- What the iteration in chunks makes durable where no commit fails.
use Prim.Native.Nat.{◌%◌}
use mathlib.Core.List.{append-nil, append_assoc}
use gemstone_py.Prelude.{
  ℕ, suc, ◌+◌, ◌≡◌, refl, sym, ap, subst, ◌∙◌, String, Option, Bool, true, false, not, List, [],
  ◌∷◌, ◌++◌, length, arith, nat_eq, ◌==◌, Bool-cases, inl, inr,
}
use gemstone_py.Prelude.Exec.{ok}
use gemstone_py.Migrations.Class.{
  ClassApi, Migration, Run, call, after_commit, commit_attempts, commit_with_retry, commit_if,
  chunk_loop, chunk_of, each_in_chunks,
}
use gemstone_py.Migrations.Class.Commits.{Transactions}

module _ (api : ClassApi) {C : Type 0} (t : Transactions api C) where
  module _ (mig : Migration api) (callback : api.Instance → Run api (Unit {0}))
      (change : api.Instance → List C) where
    -- The callback returns, and writes its changes without a commit.
    abbrev pub Writes : Type 0
    Writes =
        (x : api.Instance) (w : api.World)
        → ((callback x w).0 ≡ ok tt)
          × (t.durable (callback x w).1 ≡ t.durable w)
          × (t.pending (callback x w).1 ≡ t.pending w ++ change x)

    abbrev pub changes : List api.Instance → List C
    changes [] = []
    changes (x ∷ xs) = change x ++ changes xs

    -- Every commit returns.
    abbrev NoConflict : Type 0
    NoConflict = (w : api.World) → (api.commit w).0 ≡ ok tt

    -- The whole of what was written, and nothing of it pending at the end of a chunk.
    record Log (n i : ℕ) (log : List C) (w : api.World) : Type 0 where
      written : t.durable w ++ t.pending w ≡ log
      settled : i % n ≡ 0 → t.pending w ≡ []

    commit_settles :
        NoConflict
        → (n : ℕ) (w : api.World) → mig.max_retries ≡ suc n
        → ((commit_with_retry api mig w).0 ≡ ok tt)
          × (t.durable (commit_with_retry api mig w).1 ≡ t.durable w ++ t.pending w)
          × (t.pending (commit_with_retry api mig w).1 ≡ [])
    unfolding commit_with_retry commit_attempts after_commit
    commit_settles calm n w h =
        rw (h, calm w) (refl, (t.commit_returned w (calm w)).0, (t.commit_returned w (calm w)).1)

    returned :
        {A : Type 0} (m : Run api A) (w : api.World) (a : A)
        → (m w).0 ≡ ok a
        → m w ≡ (ok a, (m w).1)
    returned m w a e i = (e i, (m w).1)

    -- A commit in a chunk, or none.
    commit_if_lem :
        NoConflict
        → (k n : ℕ) (test : Bool) (w : api.World) → mig.max_retries ≡ suc k
        → (n == 0) ≡ false
        → (w' : api.World) × (commit_if api mig n test w ≡ (ok tt, w'))
          × (t.durable w' ++ t.pending w' ≡ t.durable w ++ t.pending w)
          × (test ≡ true → t.pending w' ≡ [])
    unfolding commit_if
    commit_if_lem calm k n true w retries some_chunk =
        let (r, d, p) = commit_settles calm k w retries in
        let w' = (commit_with_retry api mig w).1 in
        (
          w',
          rw (some_chunk, returned (commit_with_retry api mig) w tt r),
          rw (d, p, append-nil (t.durable w ++ t.pending w)),
          (λ _. p),
        )
    commit_if_lem calm k n false w retries some_chunk = (w, rw some_chunk, refl, (λ h. cc))

    zero_test : (a : ℕ) → a ≡ 0 → (a == 0) ≡ true
    zero_test a h = ground arith

    relog :
        {n i j : ℕ} {log log' : List C} {w : api.World}
        → i ≡ j
        → log ≡ log'
        → Log n i log w
        → Log n j log' w
    relog {n} {w = w} e f l = subst (λ (c : ℕ × List C). Log n c.0 c.1 w) (λ k. (e k, f k)) l

    chunk_loop_lem :
        Writes
        → NoConflict
        → (k n i : ℕ) (xs : List api.Instance) (log : List C) (w : api.World)
        → mig.max_retries ≡ suc k
        → (n == 0) ≡ false
        → Log n i log w
        → (w' : api.World) × (chunk_loop api mig callback n i xs w ≡ (ok (i + length xs), w'))
          × Log n (i + length xs) (log ++ changes xs) w'
    unfolding chunk_loop
    chunk_loop_lem writes calm k n i [] log w retries some_chunk l =
        let e : i ≡ i + 0 = omega arith in
        (w, ap (λ (j : ℕ). (ok j, w)) e, relog e (sym (append-nil log)) l)
    chunk_loop_lem writes calm k n i (x ∷ xs) log w retries some_chunk l =
        let (r, d, p) = writes x w in
        let w1 = (callback x w).1 in
        let (w2, q2, d2, p2) = commit_if_lem calm k n ((i + 1) % n == 0) w1 retries some_chunk in
        let l2 : Log n (i + 1) (log ++ change x) w2 = record {
          written =
              d2
              ∙ rw (d, p)
                  (sym (append_assoc (t.durable w) (t.pending w) (change x))
                    ∙ ap (λ c. c ++ change x) l.written);
          settled = λ h. p2 (zero_test ((i + 1) % n) h);
        } in
        let (w3, q3, l3) =
          chunk_loop_lem writes calm k n (i + 1) xs (log ++ change x) w2 retries some_chunk l2 in
        let e : i + 1 + length xs ≡ i + length (x ∷ xs) = omega arith in
        (
          w3,
          rw (returned (callback x) w tt r, q2, q3) (ap (λ (j : ℕ). (ok j, w3)) e),
          relog e (append_assoc log (change x) (changes xs)) l3,
        )

    settle :
        (w : api.World) (log : List C)
        → t.pending w ≡ []
        → t.durable w ++ t.pending w ≡ log
        → t.durable w ≡ log
    settle w log h e = sym (append-nil (t.durable w)) ∙ ap (λ c. t.durable w ++ c) (sym h) ∙ e

    is_zero : (a : ℕ) → (a == 0) ≡ true → a ≡ 0
    is_zero a h = ground arith

    -- The commit behind the loop, which the last chunk may have made already.
    end_lem :
        NoConflict
        → (k n total : ℕ) (log : List C) (w : api.World) → mig.max_retries ≡ suc k
        → (n == 0) ≡ false
        → Log n total log w
        → (w' : api.World) × (commit_if api mig n (not (total % n == 0)) w ≡ (ok tt, w'))
          × (t.durable w' ≡ log)
          × (t.pending w' ≡ [])
    unfolding commit_if
    end_lem calm k n total log w retries some_chunk l =
        let (w', q, d, p) = commit_if_lem calm k n (not (total % n == 0)) w retries some_chunk in
        elim (Bool-cases (total % n == 0)) [
          | inl whole ↦
              let clean = l.settled (is_zero (total % n) whole) in
              (w, rw (whole, some_chunk), settle w log clean l.written, clean)
          | inr part ↦
              let none_left = p (rw part) in
              (w', q, settle w' log none_left (d ∙ l.written), none_left)
        ]

    -- If the callback returns and writes without committing, every commit returns, there is
    -- an attempt to make, the chunk size is not 0, and nothing is pending when the instances
    -- are listed, each_in_chunks returns their number, and the changes of all of them are
    -- durable, in order, with nothing left pending.
    pub each_in_chunks_lem :
        Writes
        → NoConflict
        → (k : ℕ) (class_name : String) (chunk_size : Option ℕ) (wrap : Bool)
          (xs : List api.Instance) (w w0 : api.World)
        → mig.max_retries ≡ suc k
        → (chunk_of api mig chunk_size == 0) ≡ false
        → api.list_instances class_name wrap w ≡ (ok xs, w0)
        → t.pending w0 ≡ []
        → (w' : api.World) × (each_in_chunks api mig class_name callback chunk_size wrap w
            ≡ (ok (length xs), w'))
          × (t.durable w' ≡ t.durable w0 ++ changes xs)
          × (t.pending w' ≡ [])
    unfolding each_in_chunks call
    each_in_chunks_lem writes calm k class_name chunk_size wrap xs w w0 retries some_chunk listed
          clean =
        let n = chunk_of api mig chunk_size in
        let begin : Log n 0 (t.durable w0) w0 = record {
          written = rw clean (append-nil (t.durable w0));
          settled = λ h. clean;
        } in
        let (w1, q1, l1) =
          chunk_loop_lem writes calm k n 0 xs (t.durable w0) w0 retries some_chunk begin in
        let e : 0 + length xs ≡ length xs = omega arith in
        let (w2, q2, d, p) =
          end_lem calm k n (length xs) (t.durable w0 ++ changes xs) w1 retries some_chunk
            (relog e refl l1) in
        (w2, rw (listed, q1 ∙ ap (λ (j : ℕ). (ok j, w1)) e, q2), d, p)
