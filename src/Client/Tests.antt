-- ===== src/Client/Tests.antt =====
-- A session over a small library: its world is the export set, its answers are fixed.
use gemstone_py.Prelude.{
  ℕ, ◌≡◌, ◌<◌, refl, Bool, true, false, none, some, List, [], ◌∷◌, nat_eq, ◌==◌, if◌then◌else◌,
  arith,
}
use gemstone_py.Prelude.Texts.{codes}
use gemstone_py.Client.Bulk.{
  coerce_perform_calls, coerce_perform_call, as_pair, as_triple, other_tuple,
}
use gemstone_py.Scope.{commit_on_success}
use gemstone_py.Client.{Gci, Client, different_thread}
use gemstone_py.Client.Session.{
  require_login, activate_session, activate, drain_pending_managed_oop_removals, drain_loop,
  popitem, can_call_gci_on_current_thread,
}
use gemstone_py.Client.Exports.{release_managed_oop}
use gemstone_py.Prelude.Dict.{lookup, insert}
use gemstone_py.Client.Calls.{logout, exit, commit, raise_unless}
use gemstone_py.Client.Refusal.{BoundTo, AllRaise, Raises, foreign_calls_refused}
use gemstone_py.Client.Handles.{ExportSet, IsCall}
use gemstone_py.Client.Handles.Calls.{commit-IsCall}
use gemstone_py.Client.Handles.Steps.{references}
use gemstone_py.Client.Handles.Refinement.{
  HandleOp, retain, release, call, Held, Represents, Follows, perform_ops-refines,
}
use gemstone_py.Client.Handles.Leak.{
  HandleEvent, retained, released, called, after, Covered, nothing_leaks, retained_then_lost,
}
use gemstone_py.Client.Exit.{LoggedOut, exit_lem}

abbrev library : Gci
library = record {
  World = ℕ → Bool;
  Float = ℕ;
  load = λ w. (true, w);
  set_net = λ w. w;
  login = λ w. (true, w);
  get_session_id = λ w. (4, w);
  set_session_id = λ n w. w;
  logout = λ w x. false;
  commit = λ w. ((false, 2407), w);
  abort = λ w. ((true, 0), w);
  needs_commit = λ w. (true, w);
  in_transaction = λ w. (true, w);
  last_error = λ w. (0, w);
  execute_str = λ source w. (20, w);
  perform = λ receiver selector args w. (20, w);
  new_string = λ text w. (513, w);
  new_symbol = λ text w. (769, w);
  new_oop = λ class_oop w. (1025, w);
  resolve_symbol = λ name w. (1281, w);
  fetch_class = λ oop w. (1281, w);
  fetch_size = λ oop w. (0, w);
  fetch_bytes = λ oop size w. ([], w);
  float_to_oop = λ value w. (6, w);
  oop_to_float = λ oop w. (none, w);
  put_in_dict = λ dict_oop key value w. w;
  add_oop_to_export_set = some (λ o w x. if x == o then true else w x);
  remove_oop_from_export_set = some (λ o w x. if x == o then false else w x);
}

abbrev export_set : ExportSet library
export_set = record {
  add = λ o w x. if x == o then true else w x;
  remove = λ o w x. if x == o then false else w x;
  exported = λ w x. w x;
  has_add = refl;
  has_remove = refl;
  exported-add = λ o x w. refl;
  exported-remove = λ o x w. refl;
  exported-set_session_id = λ n x w. refl;
}

-- Thread 1 has logged in and holds object 513 twice.
abbrev session : Client library
session = record {
  has_lib = true;
  session_id = 4;
  logged_in = true;
  owner_thread_id = some 1;
  string_class_oops = none;
  managed_oop_counts = (513, 2) ∷ [];
  pending_removals = [];
  draining = false;
  world = λ x. x == 513;
}

abbrev fresh : Client library
fresh = record session {
  has_lib = false;
  session_id = 0;
  logged_in = false;
  owner_thread_id = none;
  managed_oop_counts = [];
  world = λ x. false;
}

-- Thread 1 holds the object once.
abbrev single : Client library
single = record session { managed_oop_counts = (513, 1) ∷ [] }

session-BoundTo : BoundTo 1 session
unfolding nat_eq
session-BoundTo = record { loaded = refl; logged = refl; valid = refl; bound = refl }

single-BoundTo : BoundTo 1 single
unfolding nat_eq
single-BoundTo = record { loaded = refl; logged = refl; valid = refl; bound = refl }

abbrev held : Held
held x = if x == 513 then 2 else 0

session-Represents : Represents library 1 export_set held session
unfolding lookup
session-Represents = record {
  bound = session-BoundTo;
  idle = refl;
  settled = refl;
  counted = λ x. ground arith;
  exports = λ x. ground arith;
}

session-Covered : Covered library 1 export_set session
unfolding lookup
session-Covered = record { bound = session-BoundTo; idle = refl; covered = λ x h. ground arith }

foreign_calls_refused_example :
    AllRaise library 2 (different_thread 1) session
    × Raises library 2 (different_thread 1) session (logout library 2)
unfolding nat_eq
foreign_calls_refused_example = foreign_calls_refused library 2 1 session session-BoundTo refl

commits : (me : ℕ) → IsCall library me export_set (commit library me)
commits me = commit-IsCall library me export_set (λ w x. refl)

abbrev ops : List (HandleOp library)
ops = release 513 ∷ retain 769 ∷ call (commit library 1) ∷ release 513 ∷ []

perform_ops-refines_example : Follows library 1 export_set ops held session
perform_ops-refines_example =
    perform_ops-refines library 1 export_set ops held session (commits 1, tt) session-Represents

abbrev events : List (HandleEvent library)
events = called 2 (commit library 2) ∷ released 2 513 ∷ []

still_exported : (commit library 1 (after library events session)).1.world 513 ≡ true
unfolding commit require_login activate_session activate drain_pending_managed_oop_removals
    drain_loop popitem can_call_gci_on_current_thread release_managed_oop lookup insert nat_eq
    raise_unless
still_exported = refl

nothing_leaks_example : 0 < references 513 (commit library 1 (after library events session)).1
nothing_leaks_example =
    nothing_leaks library 1 export_set events (commit library 1) session 513 (commits 2, tt)
      (commits 1) session-Covered still_exported

retained_then_lost_example :
    let d =
      after library (released 2 513 ∷ retained 1 513 ∷ called 1 (commit library 1) ∷ []) single in
    (references 513 d ≡ 1) × (d.world 513 ≡ false)
unfolding nat_eq lookup
retained_then_lost_example =
    retained_then_lost library 1 export_set 2 513 (commit library 1) single (commits 1)
      single-BoundTo refl refl refl

exit_lem_example :
    ((exit library 1 false commit_on_success session).0 ≡ (commit library 1 session).0)
    × ((exit library 1 false commit_on_success session).1
        ≡ (logout library 1 (commit library 1 session).1).1)
    × LoggedOut library 1 (exit library 1 false commit_on_success session).1
exit_lem_example =
    exit_lem library 1 export_set false commit_on_success session session-BoundTo refl

-- A tuple of a wrong length refuses all the calls.
wrong_length_refused :
    coerce_perform_calls
      (as_pair 513 (codes "size") ∷ as_triple 769 (codes "at:") (2 ∷ []) ∷ other_tuple ∷ [])
    ≡ none
unfolding coerce_perform_calls coerce_perform_call
wrong_length_refused = refl
