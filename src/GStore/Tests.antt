-- ===== src/GStore/Tests.antt =====
-- The store over a stone whose world is what is committed and what the session sees.
use gemstone_py.Prelude.{
  String, string_eq, ◌≡◌, refl, ap, subst, Option, none, some, true, false, [], ◌∷◌, inr, contains,
  ◌==◌, arith, if◌then◌else◌,
}
use gemstone_py.Prelude.Dict.{Dict, keys, lookup, insert, erase, lookup-insert, lookup-erase}
use gemstone_py.Prelude.Exec.{ok, err}
use gemstone_py.Session.{runtime_error}
use gemstone_py.GStore.{Json, StoneApi, call_raised}
use gemstone_py.GStore.Transaction.{
  Transaction, without, get_item, set_item, delete_item, contains_item, transaction_keys,
}
use gemstone_py.GStore.Store.{
  ensure_root, StoreState, BodyEnd, body_raised, body_interrupted, end_transaction, commit_attempts,
  write_file, ensure_file, transaction, flush, write_items, remove_keys, commit_with_retry,
  max_retries,
}
use gemstone_py.GStore.Files.{rm, rm_all, list}
use gemstone_py.Retry.{with_session, close_session, exit_session, exit_policy}
use gemstone_py.GStore.View.{views_agree}
use gemstone_py.GStore.Flush.{IsMapping, Encodes, flush-entry}
use gemstone_py.GStore.Commit.{Attempted, commit_with_retry_lem}
use gemstone_py.GStore.Discard.{IsTransactional, transaction_rolled_back}

abbrev Table : Type 0
Table = Dict String String

abbrev texts : Json
texts = record { Value = String; dumps = λ v. ok v; loads = λ s. some s; raw_text = λ s. s }

abbrev stone : StoneApi
stone = record {
  World = Table × Table;
  Mapping = Unit {0};
  login = λ w. (ok tt, w);
  logout = λ w. (ok tt, w);
  abort = λ w. (ok tt, (w.0, w.0));
  commit = λ w. (ok tt, (w.1, w.1));
  root_contains = λ w. (ok true, w);
  root_create = λ w. (ok tt, w);
  root_get = λ w. (ok tt, w);
  root_remove = λ w. (ok tt, (w.0, []));
  contains_key = λ m k w. (ok true, w);
  create = λ m k w. (ok tt, w);
  get = λ m k w. (ok tt, w);
  put = λ m k text w. (ok tt, (w.0, insert k text w.1));
  remove = λ m k w. (ok tt, (w.0, erase k w.1));
  string_pairs = λ m w. (ok w.1, w);
  string_keys = λ m w. (ok (keys w.1), w);
}

abbrev handle : Transaction String
handle = record {
  read_only = false;
  snapshot = ("a", "1") ∷ ("b", "2") ∷ [];
  dirty = ("c", "3") ∷ [];
  deletes = "b" ∷ [];
  is_open = true;
}

differ : ◌==◌ {A = String} "b" "c" ≡ false
unfolding string_eq
differ = refl

apart : (k : String) → contains handle.deletes k ≡ true → lookup k handle.dirty ≡ none
unfolding lookup
apart k h = ground (arith, differ)

written :
    set_item "b" "4" handle
    ≡ ok (record handle { dirty = ("c", "3") ∷ ("b", "4") ∷ []; deletes = [] })
unfolding set_item insert string_eq without
written = refl

deleted : delete_item "c" handle ≡ ok (record handle { dirty = []; deletes = "c" ∷ "b" ∷ [] })
unfolding delete_item erase string_eq without
deleted = refl

one_file_removed :
    rm stone texts "b" (handle.snapshot, handle.snapshot)
    ≡ (ok tt, (("a", "1") ∷ [], ("a", "1") ∷ []))
unfolding rm with_session close_session exit_session exit_policy ensure_root erase string_eq
one_file_removed = refl

all_files_removed : rm_all stone texts (handle.snapshot, handle.snapshot) ≡ (ok tt, ([], []))
unfolding rm_all with_session close_session exit_session exit_policy
all_files_removed = refl

files_listed :
    list stone texts (handle.snapshot, handle.snapshot)
    ≡ (ok ("a" ∷ "b" ∷ []), (handle.snapshot, handle.snapshot))
unfolding list with_session close_session exit_session exit_policy
files_listed = refl

views_agree_example :
    (contains (transaction_keys handle) "b" ≡ contains_item "b" handle)
    × (contains_item "b" handle ≡ elim (get_item "b" handle) [ ok _ ↦ true | err _ ↦ false ])
views_agree_example = views_agree "b" handle refl apart

abbrev entry : Table × Table → Unit {0} → String → Option String
entry w m k = lookup k w.1

entry-IsMapping : IsMapping stone texts entry
entry-IsMapping = record {
  entry-put = λ f j text w w' e k.
      subst (λ v. lookup k v.1 ≡ (if k == j then some text else lookup k w.1)) (ap (λ r. r.1) e)
        (lookup-insert k j text w.1);
  entry-remove = λ f j w w' e k.
      subst (λ v. lookup k v.1 ≡ (if k == j then none else lookup k w.1)) (ap (λ r. r.1) e)
        (lookup-erase k j w.1);
}

flushed :
    flush stone texts tt handle.dirty handle.deletes ([], handle.snapshot)
    ≡ (ok tt, ([], ("a", "1") ∷ ("c", "3") ∷ []))
unfolding write_items remove_keys insert erase string_eq
flushed = refl

flush-entry_example : Encodes stone texts (some "3") none (some "3")
unfolding lookup string_eq
flush-entry_example =
    flush-entry stone texts entry entry-IsMapping tt handle.dirty handle.deletes
      ([], handle.snapshot) ([], ("a", "1") ∷ ("c", "3") ∷ []) (refl, tt) flushed "c"

commit_with_retry_lem_example :
    Attempted stone texts "db" handle.dirty handle.deletes max_retries
      ([], handle.snapshot)
      (commit_with_retry stone texts "db" handle.dirty handle.deletes ([], handle.snapshot))
commit_with_retry_lem_example =
    commit_with_retry_lem stone texts "db" handle.dirty handle.deletes ([], handle.snapshot)

stone-IsTransactional : IsTransactional stone texts (λ w. w.0)
stone-IsTransactional = record {
  login-Keeps = λ w. refl;
  logout-Keeps = λ w. refl;
  abort-Keeps = λ w. refl;
  root_contains-Keeps = λ w. refl;
  root_create-Keeps = λ w. refl;
  root_get-Keeps = λ w. refl;
  contains_key-Keeps = λ m k w. refl;
  create-Keeps = λ m k w. refl;
  get-Keeps = λ m k w. refl;
  string_pairs-Keeps = λ m w. refl;
}

abbrev body : Transaction String → BodyEnd stone texts × Transaction String
body t = (body_raised runtime_error, record t { dirty = ("a", "9") ∷ [] })

abbrev idle : StoreState stone texts
idle = record { world = (handle.snapshot, []); in_transaction = false }

-- An interrupted block is committed, and the interrupt goes on.
interrupted_committed :
    end_transaction stone texts "db" false
      (body_interrupted runtime_error)
      handle
      (handle.snapshot, handle.snapshot)
    ≡ (
      err (call_raised runtime_error),
      (("a", "1") ∷ ("c", "3") ∷ [], ("a", "1") ∷ ("c", "3") ∷ []),
    )
unfolding end_transaction commit_with_retry commit_attempts write_file ensure_root ensure_file
    write_items remove_keys insert erase string_eq
interrupted_committed = refl

transaction_rolled_back_example :
    let st' = (transaction stone texts "db" false body idle).1 in
    (st'.world.0 ≡ handle.snapshot) × (st'.in_transaction ≡ false)
transaction_rolled_back_example =
    transaction_rolled_back stone texts (λ w. w.0) stone-IsTransactional "db" false body idle refl
      (λ t. inr tt)
