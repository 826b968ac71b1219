-- ===== src/Client/Calls.antt =====
-- The calls of the session: the login and its end, transactions, evaluation, messages and the
-- primitives on objects. `_observe_operation`, which only measures, is passed over.
use gemstone_py.Prelude.{
  ℕ, zero, suc, Bool, true, false, not, ◌||◌, Option, none, some, List, [], nat_eq, ◌==◌,
  if◌then◌else◌,
}
use gemstone_py.Prelude.Exec.{Result, ok, err}
use gemstone_py.Prelude.Action.{pure, raise, catch, ◌>>=◌, ◌>>◌}
use gemstone_py.Prelude.Texts.{Text, codes}
use gemstone_py.Oop.{oop_illegal, oop_nil}
use gemstone_py.Scope.{TransactionPolicy, manual, commit_on_success, abort_on_exit}
use gemstone_py.Client.{
  Gci, ClientError, missing_credentials, library_not_found, gci_error, illegal_oop, unresolved,
  no_float_oop, Client, gci_invalid_session, Method,
}
use gemstone_py.Client.Session.{
  call_gci, tell_gci, try_finally, require_lib, activate_session, require_login,
}

module _ (g : Gci) (me : ℕ) where
  load_lib : Bool → Method g (Unit {0})
  load_lib true c = (ok tt, record c { has_lib = true })
  load_lib false c = (err library_not_found, c)

  unfoldable pub ensure_lib : Method g (Unit {0})
  unfolding load_lib
  ensure_lib c =
      if c.has_lib then (ok tt, c) else (do loaded ← call_gci g me g.load; load_lib loaded) c

  -- `lib.GciErr(err)` and the raise
  raise_last_error : {A : Type 0} → Method g A
  raise_last_error = do number ← call_gci g me g.last_error; raise (gci_error number)

  unfoldable pub finish_login : Bool → Method g (Unit {0})
  unfolding raise_last_error
  finish_login false = raise_last_error
  finish_login true = do
    session_id ← call_gci g me g.get_session_id
    (λ c.
        (ok tt, record c { session_id = session_id; logged_in = true; owner_thread_id = some me }))

  unfoldable pub login_with_lib : Method g (Unit {0})
  login_with_lib = do
    require_lib g me
    tell_gci g me g.set_net
    done ← call_gci g me g.login
    finish_login done

  -- The argument says whether the configuration has a user name and a password.
  unfoldable pub login : Bool → Method g (Unit {0})
  login false = raise missing_credentials
  login true = do ensure_lib; login_with_lib

  abbrev pub logged_out : Client g → Client g
  logged_out c = record c {
    logged_in = false;
    session_id = gci_invalid_session;
    owner_thread_id = none;
    managed_oop_counts = [];
    pending_removals = [];
  }

  unfoldable pub logout : Method g (Unit {0})
  logout c =
      if not c.logged_in || not c.has_lib
      then (ok tt, c)
      else (do activate_session g me; try_finally (tell_gci g me g.logout) logged_out) c

  unfoldable pub raise_unless : Bool × ℕ → Method g (Unit {0})
  raise_unless (true, number) = pure tt
  raise_unless (false, number) = raise (gci_error number)

  unfoldable pub commit : Method g (Unit {0})
  unfolding raise_unless
  commit = do require_login g me; done ← call_gci g me g.commit; raise_unless done

  -- The error number of the struct, 0 if the library has filled in none.
  unfoldable pub raise_number : ℕ → Method g (Unit {0})
  raise_number zero = raise illegal_oop
  raise_number (suc number) = raise (gci_error (suc number))

  unfoldable pub raise_illegal : Method g (Unit {0})
  raise_illegal = do require_lib g me; number ← call_gci g me g.last_error; raise_number number

  -- `OOP_ILLEGAL` stands for an error.
  unfoldable pub check_result : ℕ → Method g (Unit {0})
  check_result oop = if oop == oop_illegal then raise_illegal else pure tt

  unfoldable pub abort_by_source : Method g (Unit {0})
  abort_by_source = do
    oop ← call_gci g me (g.execute_str (codes "System abortTransaction"))
    check_result oop

  unfoldable pub end_abort : Bool × ℕ → Method g (Unit {0})
  end_abort (true, number) = pure tt
  end_abort (false, zero) = abort_by_source
  end_abort (false, suc number) = raise (gci_error (suc number))

  unfoldable pub abort : Method g (Unit {0})
  unfolding end_abort
  abort = do require_login g me; done ← call_gci g me g.abort; end_abort done

  unfoldable pub needs_commit : Method g Bool
  needs_commit = do require_login g me; call_gci g me g.needs_commit

  unfoldable pub in_transaction : Method g Bool
  in_transaction = do require_login g me; call_gci g me g.in_transaction

  -- `__exit__`: whether the block raised, and the policy.
  unfoldable pub exit_transaction : Bool → TransactionPolicy → Method g (Unit {0})
  exit_transaction true policy = catch abort (λ e. pure tt)
  exit_transaction false commit_on_success = commit
  exit_transaction false abort_on_exit = catch abort (λ e. pure tt)
  exit_transaction false manual = pure tt

  -- What the body of a `finally` raises replaces what came before it.
  after :
      Result ClientError (Unit {0}) → Result ClientError (Unit {0}) → Result ClientError (Unit {0})
  after (err e) before = err e
  after (ok a) before = before

  unfoldable pub exit : Bool → TransactionPolicy → Method g (Unit {0})
  unfolding after
  exit raised policy c =
      let (r, d) = exit_transaction raised policy c in let (q, e) = logout d in (after q r, e)

  unfoldable pub execute_str_oop : Text → Method g ℕ
  execute_str_oop source = do
    require_login g me
    oop ← call_gci g me (g.execute_str source)
    check_result oop
    pure oop

  unfoldable pub perform_oop_raw : ℕ → Text → List ℕ → Method g ℕ
  perform_oop_raw receiver selector args = do
    require_login g me
    oop ← call_gci g me (g.perform receiver selector args)
    check_result oop
    pure oop

  unfoldable pub new_string : Text → Method g ℕ
  new_string value = do require_login g me; call_gci g me (g.new_string value)

  unfoldable pub new_symbol : Text → Method g ℕ
  new_symbol value = do require_login g me; call_gci g me (g.new_symbol value)

  unfoldable pub new_object : ℕ → Method g ℕ
  new_object class_oop = do require_login g me; call_gci g me (g.new_oop class_oop)

  unfoldable pub resolve : Text → Method g ℕ
  resolve name = do
    require_login g me
    oop ← call_gci g me (g.resolve_symbol name)
    (if oop == oop_illegal then raise (unresolved name) else pure oop)

  unfoldable pub float_oop : g.Float → Method g ℕ
  float_oop value = do
    require_login g me
    oop ← call_gci g me (g.float_to_oop value)
    (if oop == oop_illegal || oop == oop_nil then raise no_float_oop else pure oop)

  unfoldable pub try_oop_to_float : ℕ → Method g (Option g.Float)
  try_oop_to_float oop = do require_login g me; call_gci g me (g.oop_to_float oop)

  read_bytes : ℕ → ℕ → Method g Text
  read_bytes oop zero = pure []
  read_bytes oop size = call_gci g me (g.fetch_bytes oop size)

  unfoldable pub fetch_string : ℕ → Method g Text
  unfolding read_bytes
  fetch_string oop = do
    require_login g me
    size ← call_gci g me (g.fetch_size oop)
    read_bytes oop size

  unfoldable pub fetch_class : ℕ → Method g ℕ
  fetch_class oop = do require_login g me; call_gci g me (g.fetch_class oop)
