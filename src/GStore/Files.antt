-- ===== src/GStore/Files.antt =====
-- The class methods of GStore, gemstone_py/gstore.py, which are about whole files. Each opens a session
-- of its own.
use gemstone_py.Prelude.{String, List, [], if◌then◌else◌}
use gemstone_py.Prelude.Action.{Action, ◌>>=◌, pure}
use gemstone_py.Session.{Fault, SessionApi}
use gemstone_py.Scope.{TransactionPolicy, manual, commit_on_success}
use gemstone_py.GStore.{Json, StoneApi}
use gemstone_py.GStore.Store.{ensure_root}
use gemstone_py.Retry.{with_session}

-- The stone as the one session that a block opens.
abbrev session_api : StoneApi → SessionApi
session_api api = record {
  World = api.World;
  Session = Unit {0};
  commit = λ s. api.commit;
  abort = λ s. api.abort;
  login = λ s. api.login;
  logout = λ s. api.logout;
}

module _ (api : StoneApi) (json : Json) where
  open api use {World, Mapping, root_contains, root_get, root_remove, remove, string_keys}

  -- `with _session(config, transaction_policy=policy) as s`
  unfoldable in_own_session :
      {A : Type 0} → TransactionPolicy → Action World Fault A → Action World Fault A
  unfolding with_session
  in_own_session policy block = with_session (session_api api) (pure tt) policy (λ s. block)

  unfoldable pub rm : String → Action World Fault (Unit {0})
  unfolding in_own_session ensure_root
  rm filename =
      in_own_session commit_on_success (ensure_root api json >>= λ root. remove root filename)

  unfoldable pub rm_all : Action World Fault (Unit {0})
  unfolding in_own_session
  rm_all =
      in_own_session commit_on_success
        (root_contains >>= λ present. if present then root_remove else pure tt)

  unfoldable pub list : Action World Fault (List String)
  unfolding in_own_session
  list = in_own_session manual (
      root_contains >>= λ present.
      if present then (root_get >>= λ root. string_keys root) else pure [])
