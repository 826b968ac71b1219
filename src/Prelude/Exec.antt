-- ===== src/Prelude/Exec.antt =====
-- Results that may be an exception.
use gemstone_py.Prelude.{◌≡◌, ◌≢◌, refl, ◌⊎◌, inl, inr}

pub data Result {ℓ κ} (E : Type ℓ) (A : Type κ) : Type (ℓ ⊔ κ) where
  ok : A → Result E A
  err : E → Result E A

module _ {ℓ} {E : Type ℓ} where
  infixl 5 ◌>>=◌
  abbrev pub ◌>>=◌ {κ μ} : {A : Type κ} {B : Type μ} → Result E A → (A → Result E B) → Result E B
  ok a >>= f = f a
  err e >>= f = err e

  pub >>=-eq-ok {κ μ} :
      {A : Type κ} {B : Type μ} (r : Result E A) (next : A → Result E B) {result : B}
      → (r >>= next) ≡ ok result
      → (x : A) × (r ≡ ok x) × (next x ≡ ok result)
  >>=-eq-ok (ok x) next h = (x, refl, h)
  >>=-eq-ok (err raised) next h = cc

  -- A bind fails with an error only if one of its parts does.
  pub >>=-ne-err {κ μ} :
      {A : Type κ} {B : Type μ} (m : Result E A) (f : A → Result E B) (e : E)
      → m ≢ err e
      → ((a : A) → m ≡ ok a → f a ≢ err e)
      → (m >>= f) ≢ err e
  >>=-ne-err (ok a) f e h k = k a refl
  >>=-ne-err (err x) f e h k = λ p. h (cc)

  -- A bind succeeds if its parts do.
  pub >>=-ok {κ μ} :
      {A : Type κ} {B : Type μ} (m : Result E A) (f : A → Result E B)
      → ((a : A) × (m ≡ ok a))
      → ((a : A) → m ≡ ok a → (b : B) × (f a ≡ ok b))
      → (b : B) × ((m >>= f) ≡ ok b)
  >>=-ok (ok a) f h k = k a refl
  >>=-ok (err x) f h k = cc h.1

pub ok-injective {ℓ κ} :
    {E : Type ℓ} {A : Type κ} {a b : A} → ◌≡◌ {A = Result E A} (ok a) (ok b) → a ≡ b
ok-injective h = cc

pub Result-cases {ℓ κ} :
    {E : Type ℓ} {A : Type κ} (r : Result E A) → ((a : A) × (r ≡ ok a)) ⊎ ((e : E) × (r ≡ err e))
Result-cases (ok a) = inl (a, refl)
Result-cases (err e) = inr (e, refl)
