-- ===== src/GStore/Store.antt =====
-- `_write_file`, `_commit_with_retry` and `GStore.transaction` of gemstone_py/gstore.py.
use gemstone_py.Prelude.{
  ℕ, zero, suc, String, string_eq, none, some, Bool, true, false, List, [], ◌∷◌, if◌then◌else◌,
}
use gemstone_py.Prelude.Dict.{Dict, insert}
use gemstone_py.Prelude.Action.{Action, ◌>>=◌, ◌>>◌, pure}
use gemstone_py.Prelude.Exec.{Result, ok, err}
use gemstone_py.Session.{Fault, commit_conflict}
use gemstone_py.GStore.{GStoreError, nested_transaction, commit_failed, call_raised, Json, StoneApi}
use gemstone_py.GStore.Transaction.{Transaction}

-- `_MAX_RETRIES`
abbrev pub max_retries : ℕ
max_retries = 10

module _ (api : StoneApi) (json : Json) where
  open api use {
    World, Mapping, login, logout, abort, commit, root_contains, root_create, root_get,
    contains_key, create, get, put, remove, string_pairs,
  }
  open json use {Value, dumps, loads, raw_text}

  -- `if not present: make it`
  abbrev pub unless : Bool → Action World Fault (Unit {0}) → Action World Fault (Unit {0})
  unless true m = pure tt
  unless false m = m

  unfoldable pub ensure_root : Action World Fault Mapping
  ensure_root = root_contains >>= λ present. unless present root_create >> root_get

  unfoldable pub ensure_file : Mapping → String → Action World Fault Mapping
  ensure_file root filename = contains_key root filename >>= λ present.
      unless present (create root filename) >> get root filename

  unfoldable pub decode : List (String × String) → Dict String Value → Dict String Value
  decode [] rows = rows
  decode ((k, raw) ∷ pairs) rows =
      decode pairs (insert k (elim (loads raw) [ some v ↦ v | none ↦ raw_text raw ]) rows)

  unfoldable pub read_file : String → Action World Fault (Dict String Value)
  read_file filename = ensure_root >>= λ root.
      ensure_file root filename >>= λ file. string_pairs file >>= λ pairs. pure (decode pairs [])

  -- The two loops of `_write_file`.
  unfoldable pub write_items : Mapping → Dict String Value → Action World Fault (Unit {0})
  write_items file [] = pure tt
  write_items file ((k, v) ∷ dirty) =
      (λ w. (dumps v, w)) >>= λ text. put file k text >> write_items file dirty

  unfoldable pub remove_keys : Mapping → List String → Action World Fault (Unit {0})
  remove_keys file [] = pure tt
  remove_keys file (k ∷ deletes) = remove file k >> remove_keys file deletes

  abbrev pub flush : Mapping → Dict String Value → List String → Action World Fault (Unit {0})
  flush file dirty deletes = write_items file dirty >> remove_keys file deletes

  unfoldable pub write_file :
      String → Dict String Value → List String → Action World Fault (Unit {0})
  write_file filename dirty deletes =
      ensure_root >>= λ root. ensure_file root filename >>= λ file. flush file dirty deletes

  -- The `for` loop: a conflict leads to an abort and another attempt.
  unfoldable pub commit_attempts :
      ℕ → String → Dict String Value → List String → Action World GStoreError (Unit {0})
  commit_attempts zero filename dirty deletes w = (err commit_failed, w)
  commit_attempts (suc n) filename dirty deletes w =
      let (written, w1) = write_file filename dirty deletes w in
      elim written [
        | err e ↦ (err (call_raised e), w1)
        | ok _ ↦
            let (done, w2) = commit w1 in
            elim done [
              | ok _ ↦ (ok tt, w2)
              | err (commit_conflict ww wd) ↦
                  let (aborted, w3) = abort w2 in
                  elim aborted [
                    | ok _ ↦ commit_attempts n filename dirty deletes w3
                    | err e ↦ (err (call_raised e), w3)
                  ]
              | err e ↦ (err (call_raised e), w2)
            ]
      ]

  unfoldable pub commit_with_retry :
      String → Dict String Value → List String → Action World GStoreError (Unit {0})
  commit_with_retry = commit_attempts max_retries

  -- The attribute `_in_transaction`, and the world of the session.
  pub record StoreState : Type 0 where
    pub world : World
    pub in_transaction : Bool

  -- How the `with` block ended: by itself, by `GStoreAbortTransaction`, by another `Exception`, or by
  -- one that is no `Exception`, a `KeyboardInterrupt` say.
  pub data BodyEnd : Type 0 where
    completed abort_requested : BodyEnd
    body_raised body_interrupted : Fault → BodyEnd

  abbrev pub lifted : Result Fault (Unit {0}) × World → Result GStoreError (Unit {0}) × World
  lifted (ok a, w) = (ok a, w)
  lifted (err e, w) = (err (call_raised e), w)

  abbrev body_result : BodyEnd → Result GStoreError (Unit {0})
  body_result (body_raised e) = err (call_raised e)
  body_result _ = ok tt

  -- The exception that goes on behind a `finally`, unless that raised.
  abbrev pub interrupted :
      Fault → Result GStoreError (Unit {0}) × World → Result GStoreError (Unit {0}) × World
  interrupted e (ok a, w) = (err (call_raised e), w)
  interrupted e (err x, w) = (err x, w)

  -- The inner `finally`: commit, or abort. An exception of it replaces that of the block. What is no
  -- `Exception` passes the two `except` clauses, so that the flags are those of a block that completed.
  unfoldable pub end_transaction :
      String → Bool → BodyEnd → Transaction Value → Action World GStoreError (Unit {0})
  end_transaction filename read_only completed t w =
      if read_only then lifted (abort w) else commit_with_retry filename t.dirty t.deletes w
  end_transaction filename read_only (body_interrupted e) t w =
      interrupted e
        (if read_only then lifted (abort w) else commit_with_retry filename t.dirty t.deletes w)
  end_transaction filename read_only ended t w =
      let (aborted, w1) = abort w in
      elim aborted [ ok _ ↦ (body_result ended, w1) | err e ↦ (err (call_raised e), w1) ]

  -- The snapshot, the block, and the inner `finally`.
  unfoldable pub run_transaction :
      String
      → Bool
      → (Transaction Value → BodyEnd × Transaction Value)
      → Action World GStoreError (Unit {0})
  run_transaction filename read_only body w =
      let (began, w1) = (abort >> read_file filename) w in
      elim began [
        | err e ↦ (err (call_raised e), w1)
        | ok rows ↦
            let (ended, t) = body (record {
              read_only = read_only;
              snapshot = rows;
              dirty = [];
              deletes = [];
              is_open = true;
            }) in
            end_transaction filename read_only ended t w1
      ]

  -- The outer `finally`: an exception of `logout` replaces the result.
  unfoldable pub leave_transaction :
      Result GStoreError (Unit {0}) × World → Result GStoreError (Unit {0}) × StoreState
  leave_transaction (r, w) =
      let (left, w1) = logout w in
      let st : StoreState = record { world = w1; in_transaction = false } in
      elim left [ ok _ ↦ (r, st) | err e ↦ (err (call_raised e), st) ]

  -- `with store.transaction(read_only) as t: body(t)`
  unfoldable pub transaction :
      String
      → Bool
      → (Transaction Value → BodyEnd × Transaction Value)
      → Action StoreState GStoreError (Unit {0})
  transaction filename read_only body st =
      if st.in_transaction
      then (err nested_transaction, st)
      else (let (entered, w) = login st.world in
          elim entered [
            | err e ↦ (err (call_raised e), record st { world = w })
            | ok _ ↦ leave_transaction (run_transaction filename read_only body w)
          ])
