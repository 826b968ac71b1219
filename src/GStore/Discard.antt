-- ===== src/GStore/Discard.antt =====
-- What a transaction that does not complete leaves in the stone.
use gemstone_py.Prelude.{String, ◌≡◌, refl, ap, ◌∙◌, Bool, true, false, [], ◌⊎◌, inl, inr}
use gemstone_py.Prelude.Action.{Action, ◌>>=◌, ◌>>◌}
use gemstone_py.Prelude.Exec.{Result, ok, err, Result-cases}
use gemstone_py.Session.{Fault}
use gemstone_py.GStore.{GStoreError, Json, StoneApi}
use gemstone_py.GStore.Transaction.{Transaction}
use gemstone_py.GStore.Store.{
  unless, ensure_root, ensure_file, read_file, StoreState, BodyEnd, completed, abort_requested,
  body_raised, body_interrupted, interrupted, end_transaction, run_transaction, leave_transaction,
  transaction, lifted,
}

-- An action keeps a view of the state, whether it returns or raises.
abbrev Keeps {ℓ} : {S : Type 0} {D : Type ℓ} → (S → D) → {A : Type 0} → Action S Fault A → Type ℓ
Keeps {S = S} durable m = (w : S) → durable (m w).1 ≡ durable w

Keeps->>= {ℓ} :
    {S : Type 0} {D : Type ℓ} {A B : Type 0} (durable : S → D) (m : Action S Fault A)
    (f : A → Action S Fault B)
    → Keeps durable m
    → ((a : A) → Keeps durable (f a))
    → Keeps durable (m >>= f)
Keeps->>= durable m f h k w = elim (Result-cases (m w).0) [
  | inl (a, e) ↦ rw e (k a (m w).1 ∙ h w)
  | inr (x, e) ↦ rw e (h w)
]

module _ (api : StoneApi) (json : Json) {D : Type 0} (durable : api.World → D) where
  open api use {
    World, Mapping, login, logout, abort, commit, root_contains, root_create, root_get,
    contains_key, create, get, string_pairs,
  }
  open json use {Value}

  -- Only a commit makes a change of the session durable.
  pub record IsTransactional : Type 0 where
    pub login-Keeps : Keeps durable login
    pub logout-Keeps : Keeps durable logout
    pub abort-Keeps : Keeps durable abort
    pub root_contains-Keeps : Keeps durable root_contains
    pub root_create-Keeps : Keeps durable root_create
    pub root_get-Keeps : Keeps durable root_get
    pub contains_key-Keeps : (m : Mapping) (k : String) → Keeps durable (contains_key m k)
    pub create-Keeps : (m : Mapping) (k : String) → Keeps durable (create m k)
    pub get-Keeps : (m : Mapping) (k : String) → Keeps durable (get m k)
    pub string_pairs-Keeps : (m : Mapping) → Keeps durable (string_pairs m)

  module _ (law : IsTransactional) where
    unless-Keeps :
        (b : Bool) (m : Action World Fault (Unit {0}))
        → Keeps durable m
        → Keeps durable (unless api json b m)
    unless-Keeps true m h w = refl
    unless-Keeps false m h w = h w

    ensure_root-Keeps : Keeps durable (ensure_root api json)
    unfolding ensure_root
    ensure_root-Keeps = Keeps->>= durable root_contains _ law.root_contains-Keeps (λ present.
        Keeps->>= durable (unless api json present root_create) _
          (unless-Keeps present root_create law.root_create-Keeps) (λ _. law.root_get-Keeps))

    ensure_file-Keeps :
        (m : Mapping) (filename : String) → Keeps durable (ensure_file api json m filename)
    unfolding ensure_file
    ensure_file-Keeps m filename =
        Keeps->>= durable (contains_key m filename) _ (law.contains_key-Keeps m filename)
          (λ present.
            Keeps->>= durable (unless api json present (create m filename)) _
              (unless-Keeps present (create m filename) (law.create-Keeps m filename))
              (λ _. law.get-Keeps m filename))

    read_file-Keeps : (filename : String) → Keeps durable (read_file api json filename)
    unfolding read_file
    read_file-Keeps filename = Keeps->>= durable (ensure_root api json) _ ensure_root-Keeps (λ root.
        Keeps->>= durable (ensure_file api json root filename) _ (ensure_file-Keeps root filename)
          (λ file.
            Keeps->>= durable (string_pairs file) _ (law.string_pairs-Keeps file)
              (λ pairs w. refl)))

    -- The block ended in an `Exception`, the one that asks for the abort among them.
    abbrev pub Failed : BodyEnd api json → Type 0
    Failed completed = ⊥
    Failed abort_requested = Unit
    Failed (body_raised e) = Unit
    Failed (body_interrupted e) = ⊥

    -- The transaction is read-only, or its block fails.
    abbrev Discards : Bool → (Transaction Value → BodyEnd api json × Transaction Value) → Type 0
    Discards read_only body = (t : Transaction Value) → (read_only ≡ true) ⊎ Failed (body t).0

    lifted-world : (r : Result Fault (Unit {0}) × World) → (lifted api json r).1 ≡ r.1
    lifted-world (ok a, w) = refl
    lifted-world (err e, w) = refl

    interrupted-world :
        (y : Fault) (r : Result GStoreError (Unit {0}) × World) → (interrupted api json y r).1 ≡ r.1
    interrupted-world y (ok a, w) = refl
    interrupted-world y (err e, w) = refl

    end-Keeps :
        (filename : String) (read_only : Bool) (ended : BodyEnd api json) (t : Transaction Value)
        (w : World)
        → (read_only ≡ true) ⊎ Failed ended
        → durable (end_transaction api json filename read_only ended t w).1 ≡ durable w
    unfolding end_transaction
    end-Keeps filename read_only completed t w (inl h) =
        rw (h, end_transaction) (ap durable (lifted-world (abort w)) ∙ law.abort-Keeps w)
    end-Keeps filename read_only completed t w (inr h) = absurd h
    end-Keeps filename read_only (body_interrupted y) t w (inl h) =
        rw (h, end_transaction)
          (ap durable (interrupted-world y (lifted api json (abort w)) ∙ lifted-world (abort w))
            ∙ law.abort-Keeps w)
    end-Keeps filename read_only (body_interrupted y) t w (inr h) = absurd h
    end-Keeps filename read_only abort_requested t w h = elim (Result-cases (abort w).0) [
      | inl (a, e) ↦ rw (e, end_transaction) (law.abort-Keeps w)
      | inr (x, e) ↦ rw (e, end_transaction) (law.abort-Keeps w)
    ]
    end-Keeps filename read_only (body_raised y) t w h = elim (Result-cases (abort w).0) [
      | inl (a, e) ↦ rw (e, end_transaction) (law.abort-Keeps w)
      | inr (x, e) ↦ rw (e, end_transaction) (law.abort-Keeps w)
    ]

    run-Keeps :
        (filename : String) (read_only : Bool)
        (body : Transaction Value → BodyEnd api json × Transaction Value) (w : World)
        → Discards read_only body
        → durable (run_transaction api json filename read_only body w).1 ≡ durable w
    unfolding run_transaction
    run-Keeps filename read_only body w h =
        let began = abort >> read_file api json filename in
        let kept =
          Keeps->>= durable abort (λ _. read_file api json filename) law.abort-Keeps
            (λ _. read_file-Keeps filename) w in
        elim (Result-cases (began w).0) [
          | inr (x, e) ↦ rw (e, run_transaction) kept
          | inl (rows, e) ↦
              let t0 : Transaction Value = record {
                read_only = read_only;
                snapshot = rows;
                dirty = [];
                deletes = [];
                is_open = true;
              } in
              rw (e, run_transaction)
                (end-Keeps filename read_only (body t0).0 (body t0).1 (began w).1 (h t0) ∙ kept)
        ]

    leave-Keeps :
        (r : Result GStoreError (Unit {0}) × World)
        → (durable (leave_transaction api json r).1.world ≡ durable r.1)
          × ((leave_transaction api json r).1.in_transaction ≡ false)
    unfolding leave_transaction
    leave-Keeps (r, w) = elim (Result-cases (logout w).0) [
      | inl (a, e) ↦ rw (e, leave_transaction) (law.logout-Keeps w, refl)
      | inr (x, e) ↦ rw (e, leave_transaction) (law.logout-Keeps w, refl)
    ]

    -- A transaction on an idle store that is read-only, or whose block asks for the abort or
    -- raises an Exception, leaves the store idle again and nothing durable changed, whatever
    -- the calls raise, where no call but a commit makes a change durable. A block that ends
    -- in a KeyboardInterrupt, say, is no such block.
    pub transaction_rolled_back :
        (filename : String) (read_only : Bool)
        (body : Transaction Value → BodyEnd api json × Transaction Value) (st : StoreState api json)
        → st.in_transaction ≡ false
        → Discards read_only body
        → let st' = (transaction api json filename read_only body st).1 in
          (durable st'.world ≡ durable st.world) × (st'.in_transaction ≡ false)
    unfolding transaction
    transaction_rolled_back filename read_only body st idle h =
        elim (Result-cases (login st.world).0) [
          | inr (x, e) ↦ rw (idle, e, transaction) (law.login-Keeps st.world, idle)
          | inl (a, e) ↦
              let w = (login st.world).1 in
              let (left, free) = leave-Keeps (run_transaction api json filename read_only body w) in
              rw (idle, e, transaction)
                (left ∙ run-Keeps filename read_only body w h ∙ law.login-Keeps st.world, free)
        ]
