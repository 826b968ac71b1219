-- ===== src/Client.antt =====
-- A `GemStoneSession` (gemstone_py/client.py) and the GCI library that it calls.
pub mod Session
pub mod Exports
pub mod Calls
pub mod Marshal
pub mod Refusal
pub mod Handles
pub mod Login
pub mod Exit
pub mod Values
pub mod Bulk
mod Tests
use gemstone_py.Prelude.{ℕ, Bool, Option, List}
use gemstone_py.Prelude.Action.{Action}
use gemstone_py.Prelude.Dict.{Dict}
use gemstone_py.Prelude.Texts.{Text}

-- The C library, outside the repository: each call changes a world and gives what it returns. A flag
-- and an error number stand for a result and the error struct that the call fills.
pub record Gci : Type 1 where
  pub World : Type 0
  pub Float : Type 0
  -- `_load_library`, `_bind` and `GciInit`; `false` if the library cannot be loaded
  pub load : World → Bool × World
  -- `GciEncrypt` and `GciSetNet`
  pub set_net : World → World
  pub login : World → Bool × World
  pub get_session_id : World → ℕ × World
  pub set_session_id : ℕ → World → World
  pub logout : World → World
  pub commit : World → (Bool × ℕ) × World
  pub abort : World → (Bool × ℕ) × World
  pub needs_commit : World → Bool × World
  pub in_transaction : World → Bool × World
  pub last_error : World → ℕ × World
  pub execute_str : Text → World → ℕ × World
  pub perform : ℕ → Text → List ℕ → World → ℕ × World
  pub new_string : Text → World → ℕ × World
  pub new_symbol : Text → World → ℕ × World
  pub new_oop : ℕ → World → ℕ × World
  pub resolve_symbol : Text → World → ℕ × World
  pub fetch_class : ℕ → World → ℕ × World
  pub fetch_size : ℕ → World → ℕ × World
  -- `GciFetchBytes_` of that many bytes, and their decoding
  pub fetch_bytes : ℕ → ℕ → World → Text × World
  pub float_to_oop : Float → World → ℕ × World
  pub oop_to_float : ℕ → World → Option Float × World
  pub put_in_dict : ℕ → Text → ℕ → World → World
  -- the export-set functions, which a library may lack
  pub add_oop_to_export_set : Option (ℕ → World → World)
  pub remove_oop_from_export_set : Option (ℕ → World → World)

-- What a call on the session raises.
pub data ClientError : Type 0 where
  missing_credentials : ClientError
  library_not_found : ClientError
  library_not_loaded : ClientError
  not_logged_in : ClientError
  different_thread : ℕ → ClientError
  gci_error : ℕ → ClientError
  illegal_oop : ClientError
  unresolved : Text → ClientError
  no_float_oop : ClientError
  bad_character : ClientError
  cannot_convert : ClientError
  value_error : ClientError

-- The fields of the session that change. A thread is its identifier.
pub record Client (g : Gci) : Type 0 where
  pub has_lib : Bool
  pub session_id : ℕ
  pub logged_in : Bool
  pub owner_thread_id : Option ℕ
  pub string_class_oops : Option (List ℕ)
  pub managed_oop_counts : Dict ℕ ℕ
  pub pending_removals : Dict ℕ ℕ
  pub draining : Bool
  pub world : g.World

abbrev pub gci_invalid_session : ℕ
gci_invalid_session = 0

-- A method of the session, which may raise.
abbrev pub Method : Gci → Type 0 → Type 0
Method g A = Action (Client g) ClientError A
