-- ===== src/Migrations/Class/Tests.antt =====
-- A migration over a session that counts: its world is what is durable, what is pending, and how many
-- commits conflict before one returns.
use gemstone_py.Prelude.{ℕ, zero, suc, ◌≡◌, refl, ◌++◌, none, false, List, [], ◌∷◌, nat_eq}
use gemstone_py.Prelude.Exec.{Result, ok, err}
use gemstone_py.Session.{Fault, commit_conflict}
use gemstone_py.Migrations.Class.{
  ClassApi, Migration, Run, commit_with_retry, each_in_chunks, commit_attempts, after_commit, call,
  chunk_of,
}
use gemstone_py.Migrations.Class.Commits.{Transactions, first_commit, commit_with_retry-durable}
use gemstone_py.Migrations.Class.Chunks.{each_in_chunks_lem}

abbrev World : Type 0
World = List ℕ × List ℕ × ℕ

-- A commit that conflicts while the count is not used up.
try_commit : World → Result Fault (Unit {0}) × World
try_commit (d, p, zero) = (ok tt, (d ++ p, [], zero))
try_commit (d, p, suc n) = (err (commit_conflict [] []), (d, p, n))

abbrev api : ClassApi
api = record {
  World = World;
  Instance = ℕ;
  commit = λ w. try_commit w;
  abort = λ w. (ok tt, (w.0, [], w.2));
  list_instances = λ name wrap w. (ok (1 ∷ 2 ∷ 3 ∷ []), w);
}

try_commit_returned :
    (w : World)
    → (try_commit w).0 ≡ ok tt
    → ((try_commit w).1.0 ≡ w.0 ++ w.1) × ((try_commit w).1.1 ≡ [])
unfolding try_commit
try_commit_returned (d, p, zero) h = (refl, refl)
try_commit_returned (d, p, suc n) h = cc

try_commit_raised : (w : World) (e : Fault) → (try_commit w).0 ≡ err e → (try_commit w).1.0 ≡ w.0
unfolding try_commit
try_commit_raised (d, p, zero) e h = cc
try_commit_raised (d, p, suc n) e h = refl

abbrev counting : Transactions api ℕ
counting = record {
  durable = λ w. w.0;
  pending = λ w. w.1;
  commit_returned = λ w h. try_commit_returned w h;
  commit_raised = λ w e h. try_commit_raised w e h;
  abort_returned = λ w h. refl;
  abort_durable = λ w. refl;
}

abbrev migration : Migration api
migration = record { chunk_size = 2; max_retries = 3; up = none; down = none }

-- The first commit conflicts and the second returns: the change 9 is lost without an error.
change_lost : commit_with_retry api migration ([], 9 ∷ [], 1) ≡ (ok tt, ([], [], 0))
unfolding commit_with_retry commit_attempts after_commit call try_commit
change_lost = refl

commit_with_retry-durable_example :
    (commit_with_retry api migration ([], 9 ∷ [], 1)).1.0
    ≡ first_commit api counting ([], 9 ∷ [], 1)
commit_with_retry-durable_example =
    commit_with_retry-durable api counting migration 2 ([], 9 ∷ [], 1) refl

-- A session whose commits return, with what is durable and what is pending.
abbrev calm : ClassApi
calm = record {
  World = List ℕ × List ℕ;
  Instance = ℕ;
  commit = λ w. (ok tt, (w.0 ++ w.1, []));
  abort = λ w. (ok tt, (w.0, []));
  list_instances = λ name wrap w. (ok (1 ∷ 2 ∷ 3 ∷ []), w);
}

abbrev kept : Transactions calm ℕ
kept = record {
  durable = λ w. w.0;
  pending = λ w. w.1;
  commit_returned = λ w h. (refl, refl);
  commit_raised = λ w e h. cc;
  abort_returned = λ w h. refl;
  abort_durable = λ w. refl;
}

abbrev pairs : Migration calm
pairs = record { chunk_size = 2; max_retries = 3; up = none; down = none }

-- The callback writes the instance.
abbrev write : ℕ → Run calm (Unit {0})
write x w = (ok tt, (w.0, w.1 ++ x ∷ []))

each_in_chunks_lem_example :
    (w' : List ℕ × List ℕ) × (each_in_chunks calm pairs "Counter" write none false ([], [])
      ≡ (ok 3, w'))
    × (w'.0 ≡ 1 ∷ 2 ∷ 3 ∷ [])
    × (w'.1 ≡ [])
unfolding chunk_of nat_eq
each_in_chunks_lem_example =
    each_in_chunks_lem calm kept pairs write (λ x. x ∷ []) (λ x w. (refl, refl, refl)) (λ w. refl) 2
      "Counter" none false (1 ∷ 2 ∷ 3 ∷ []) ([], []) ([], []) refl refl refl refl
