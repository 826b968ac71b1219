-- ===== src/Prelude/Action.antt =====
-- Actions on a state that may raise. What was written before a raise stays written, so the state comes
-- back beside the exception too.
use gemstone_py.Prelude.{◌≡◌, inl, inr}
use gemstone_py.Prelude.Exec.{Result, ok, err, Result-cases}

abbrev pub Action {ℓ κ μ} : Type ℓ → Type κ → Type μ → Type (ℓ ⊔ κ ⊔ μ)
Action S E A = S → Result E A × S

module _ {ℓ κ μ} {S : Type ℓ} {E : Type κ} {A : Type μ} where
  abbrev pub pure : A → Action S E A
  pure a s = (ok a, s)

  abbrev pub raise : E → Action S E A
  raise e s = (err e, s)

  abbrev pub gets : (S → A) → Action S E A
  gets f s = (ok (f s), s)

  -- `r` is what an action returned, and `s` the state after it.
  abbrev continue {ν} : {B : Type ν} → Result E A → (A → Action S E B) → Action S E B
  continue (ok a) f s = f a s
  continue (err e) f s = (err e, s)

  -- `try: m except Exception as e: h(e)`
  abbrev handle : Result E A → (E → Action S E A) → Action S E A
  handle (ok a) h s = (ok a, s)
  handle (err e) h s = h e s

  abbrev pub catch : Action S E A → (E → Action S E A) → Action S E A
  catch m h s = handle (m s).0 h (m s).1

module _ {ℓ κ} {S : Type ℓ} {E : Type κ} where
  infixl 5 ◌>>=◌ ◌>>◌
  abbrev pub ◌>>=◌ {μ ν} :
      {A : Type μ} {B : Type ν} → Action S E A → (A → Action S E B) → Action S E B
  ◌>>=◌ m f s = continue (m s).0 f (m s).1

  abbrev pub ◌>>◌ {μ ν} : {A : Type μ} {B : Type ν} → Action S E A → Action S E B → Action S E B
  m >> n = m >>= λ _. n

  -- A chain of two actions returns only if both do.
  pub >>=-returns {μ ν} :
      {A : Type μ} {B : Type ν} (m : Action S E A) (f : A → Action S E B) (s : S) {b : B} {s' : S}
      → (m >>= f) s ≡ (ok b, s')
      → (a : A) × (t : S) × (m s ≡ (ok a, t)) × (f a t ≡ (ok b, s'))
  >>=-returns m f s h = elim (Result-cases (m s).0) [
    | inl (a, e) ↦ (a, (m s).1, (λ i. (e i, (m s).1)), (rw e at h))
    | inr (x, e) ↦ cc (rw e at h)
  ]
