-- ===== src/Concurrency/Tests.antt =====
-- A library whose world is the nested level.
use gemstone_py.Prelude.{
  ℕ, zero, suc, ◌≡◌, ◌≤◌, ap, arith, refl, true, false, none, [], nat_eq, ◌==◌, if◌then◌else◌,
  length, some,
}
use gemstone_py.Prelude.Exec.{Result, ok, err}
use gemstone_py.Prelude.Texts.{Text, codes}
use gemstone_py.Oop.{oop_true}
use gemstone_py.Client.{Gci, Client}
use gemstone_py.Client.Marshal.{Marshalled, bool, eval, marshal}
use gemstone_py.Client.Calls.{execute_str_oop, check_result}
use gemstone_py.Client.Session.{
  require_login, activate_session, activate, drain_pending_managed_oop_removals, drain_loop,
  popitem, can_call_gci_on_current_thread,
}
use gemstone_py.Concurrency.{
  session_result, Raised, body_exception, Helper, nested_transaction, evaluate, is_true,
}
use gemstone_py.Concurrency.Levels.{Nested, nested_transaction_level}

abbrev lower : ℕ → ℕ
lower zero = zero
lower (suc n) = n

-- The begin is the longest of the three sources.
abbrev library : Gci
library = record {
  World = ℕ;
  Float = ℕ;
  load = λ w. (true, w);
  set_net = λ w. w;
  login = λ w. (true, w);
  get_session_id = λ w. (4, w);
  set_session_id = λ n w. w;
  logout = λ w. 0;
  commit = λ w. ((true, 0), w);
  abort = λ w. ((true, 0), w);
  needs_commit = λ w. (true, w);
  in_transaction = λ w. (true, w);
  last_error = λ w. (0, w);
  execute_str = λ source w. (oop_true, if length source == 29 then suc w else lower w);
  perform = λ receiver selector args w. (20, w);
  new_string = λ text w. (513, w);
  new_symbol = λ text w. (769, w);
  new_oop = λ class_oop w. (1025, w);
  resolve_symbol = λ name w. (1281, w);
  fetch_class = λ oop w. (1281, w);
  fetch_size = λ oop w. (0, w);
  fetch_bytes = λ oop size w. ([], w);
  float_to_oop = λ value w. (6, w);
  oop_to_float = λ oop w. (none, w);
  put_in_dict = λ dict_oop key value w. w;
  add_oop_to_export_set = none;
  remove_oop_from_export_set = none;
}

abbrev at_level : ℕ → Client library
at_level n = record {
  has_lib = true;
  session_id = 4;
  logged_in = true;
  owner_thread_id = some 1;
  string_class_oops = none;
  managed_oop_counts = [];
  pending_removals = [];
  draining = false;
  world = n;
}

abbrev AtLevel : Client library → Type 0
AtLevel c = (n : ℕ) × (c ≡ at_level (suc n))

abbrev run : Text → Client library → Result (Raised ℕ ℕ) (Marshalled ℕ) × Client library
run = evaluate library ℕ 1 (λ x. true)

begun :
    (n : ℕ)
    → run (codes "System beginNestedTransaction") (at_level n) ≡ (ok (bool true), at_level (suc n))
unfolding session_result eval execute_str_oop check_result marshal require_login activate_session
    activate drain_pending_managed_oop_removals drain_loop popitem can_call_gci_on_current_thread
    nat_eq
begun n = refl

aborted :
    (n : ℕ)
    → run (codes "System abortTransaction") (at_level (suc n)) ≡ (ok (bool true), at_level n)
unfolding session_result eval execute_str_oop check_result marshal require_login activate_session
    activate drain_pending_managed_oop_removals drain_loop popitem can_call_gci_on_current_thread
    nat_eq
aborted n = refl

committed :
    (n : ℕ)
    → run (codes "System commitTransaction") (at_level (suc n)) ≡ (ok (bool true), at_level n)
unfolding session_result eval execute_str_oop check_result marshal require_login activate_session
    activate drain_pending_managed_oop_removals drain_loop popitem can_call_gci_on_current_thread
    nat_eq
committed n = refl

abbrev fails_at_7 : Helper library ℕ 1 (λ x. true) (Unit {0})
fails_at_7 c = (err (body_exception 7), c)

same_level : (c : Client library) (m n : ℕ) → c ≡ at_level (suc m) → c.world ≡ suc n → m ≡ n
same_level c m n p q = omega (arith, ap (λ d. d.world) p, q)

begins :
    (c : Client library) (value : Marshalled ℕ)
    → AtLevel c
    → (run (codes "System beginNestedTransaction") c).0 ≡ ok value
    → AtLevel (run (codes "System beginNestedTransaction") c).1
      × ((run (codes "System beginNestedTransaction") c).1.world ≡ suc c.world)
begins c value ready p = rw (ready.1, begun (suc ready.0)) ((suc ready.0, refl), refl)

aborts :
    (c : Client library) (n : ℕ) (value : Marshalled ℕ)
    → AtLevel c
    → c.world ≡ suc n
    → 1 ≤ n
    → (run (codes "System abortTransaction") c).0 ≡ ok value
    → (run (codes "System abortTransaction") c).1.world ≡ n
aborts c n value ready at in_one p =
    let same = same_level c ready.0 n ready.1 at in rw (ready.1, aborted ready.0) same

commits :
    (c : Client library) (n : ℕ) (value : Marshalled ℕ)
    → AtLevel c
    → c.world ≡ suc n
    → 1 ≤ n
    → (run (codes "System commitTransaction") c).0 ≡ ok value
    → is_true library ℕ 1 (λ x. true) value ≡ true
    → (run (codes "System commitTransaction") c).1.world ≡ n
commits c n value ready at in_one p q =
    let same = same_level c ready.0 n ready.1 at in rw (ready.1, committed ready.0) same

nested_transaction_level_example :
    Nested library ℕ 1
      (λ x. true)
      (λ n. n)
      AtLevel
      begins
      aborts
      commits
      fails_at_7
      (at_level 1)
      (nested_transaction library ℕ 1 (λ x. true) fails_at_7 (at_level 1))
nested_transaction_level_example =
    nested_transaction_level library ℕ 1 (λ x. true) (λ n. n) AtLevel begins aborts commits
      fails_at_7 (λ c ready. (ready, refl)) (at_level 1) (0, refl) (omega arith)
