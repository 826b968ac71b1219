-- ===== src/Client/Login.antt =====
-- The login.
use gemstone_py.Prelude.{
  ℕ, ◌≡◌, refl, ◌∙◌, Bool, true, false, some, nat_eq, if-true, if-false, Bool-cases, inl, inr, ◌⊎◌,
}
use gemstone_py.Prelude.Exec.{Result, ok, err}
use gemstone_py.Client.{Gci, ClientError, library_not_found, Client}
use gemstone_py.Client.Session.{require_lib}
use gemstone_py.Client.Calls.{login, login_with_lib, ensure_lib, finish_login}

module _ (g : Gci) (me : ℕ) where
  -- A login that returns has bound the session to the thread; one that raises has changed nothing of
  -- the login.
  abbrev LoginOutcome : Client g → Result ClientError (Unit {0}) × Client g → Type 0
  LoginOutcome c (ok a, d) =
      (d.has_lib ≡ true) × (d.logged_in ≡ true) × (d.owner_thread_id ≡ some me)
  LoginOutcome c (err x, d) =
      (d.logged_in ≡ c.logged_in)
      × (d.owner_thread_id ≡ c.owner_thread_id)
      × (d.session_id ≡ c.session_id)

  finish_login_lem :
      (done : Bool) (c : Client g) → c.has_lib ≡ true → LoginOutcome c (finish_login g me done c)
  unfolding finish_login
  finish_login_lem true c h = (h, refl, refl)
  finish_login_lem false c h = (refl, refl, refl)

  LoginOutcome-same :
      (c d : Client g)
      → (d.logged_in ≡ c.logged_in)
        × (d.owner_thread_id ≡ c.owner_thread_id)
        × (d.session_id ≡ c.session_id)
      → (r : Result ClientError (Unit {0}) × Client g) → LoginOutcome d r
      → LoginOutcome c r
  LoginOutcome-same c d h (ok a, x) k = k
  LoginOutcome-same c d h (err e, x) k = (k.0 ∙ h.0, k.1 ∙ h.1, k.2 ∙ h.2)

  require_lib_loaded : (c : Client g) → c.has_lib ≡ true → require_lib g me c ≡ (ok tt, c)
  unfolding require_lib
  require_lib_loaded c h = if-true c.has_lib _ _ h

  login_with_lib_lem : (c : Client g) → c.has_lib ≡ true → LoginOutcome c (login_with_lib g me c)
  unfolding login_with_lib
  login_with_lib_lem c h =
      let w = g.login (g.set_net c.world) in
      rw (require_lib_loaded c h) (finish_login_lem w.0 (record c { world = w.1 }) h)

  ensure_lib_lem :
      (c : Client g)
      → ((d : Client g) × (ensure_lib g me c ≡ (ok tt, d))
          × (d.has_lib ≡ true)
          × ((d.logged_in ≡ c.logged_in)
              × (d.owner_thread_id ≡ c.owner_thread_id)
              × (d.session_id ≡ c.session_id)))
        ⊎ (ensure_lib g me c ≡ (err library_not_found, record c { world = (g.load c.world).1 }))
  unfolding ensure_lib
  ensure_lib_lem c = elim (Bool-cases c.has_lib) [
    | inl has ↦ inl (c, if-true c.has_lib _ _ has, has, (refl, refl, refl))
    | inr lacks ↦ elim (Bool-cases (g.load c.world).0) [
      | inl loaded ↦ inl (
        record c { has_lib = true; world = (g.load c.world).1 },
        if-false c.has_lib _ _ lacks ∙ rw loaded,
        refl,
        (refl, refl, refl),
      )
      | inr missing ↦ inr (if-false c.has_lib _ _ lacks ∙ rw missing)
    ]
  ]

  -- A login that returns leaves the library loaded and the session logged in and bound to the
  -- calling thread; one that raises leaves the login, the owner and the session id as they
  -- were.
  login_lem : (credentials : Bool) (c : Client g) → LoginOutcome c (login g me credentials c)
  unfolding login
  login_lem false c = (refl, refl, refl)
  login_lem true c = elim (ensure_lib_lem c) [
    | inl (d, q, has, same) ↦ rw q (LoginOutcome-same c d same _ (login_with_lib_lem d has))
    | inr q ↦ rw q (refl, refl, refl)
  ]
