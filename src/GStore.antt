-- ===== src/GStore.antt =====
-- gemstone_py/gstore.py: a key/value store in the stone. The data; the operations are in the modules
-- below.
pub mod Transaction
pub mod Store
pub mod View
pub mod Flush
pub mod Commit
pub mod Discard
pub mod Files
mod Tests
use gemstone_py.Prelude.{String, Option, Bool, List}
use gemstone_py.Prelude.Action.{Action}
use gemstone_py.Prelude.Exec.{Result}
use gemstone_py.Session.{Fault}

-- What the store raises: each `GStoreError`, the `KeyError` of a lookup, and what a call on the
-- session raised.
pub data GStoreError : Type 0 where
  not_open read_only_transaction nested_transaction commit_failed : GStoreError
  key_error : String → GStoreError
  call_raised : Fault → GStoreError

-- `json.dumps` and `json.loads`: the first may raise, and `none` is a text that does not decode,
-- which is kept as it is, by `raw_text`.
pub record Json : Type 1 where
  pub Value : Type 0
  pub dumps : Value → Result Fault String
  pub loads : String → Option Value
  pub raw_text : String → Value

-- The session and the mappings in the stone that it reaches: the calls of `_map_contains`,
-- `_map_get`, `_map_set`, `_map_remove`, `_map_keys` and `_fetch_mapping_string_pairs`, and
-- the removal of the root.
pub record StoneApi : Type 1 where
  pub World : Type 0
  pub Mapping : Type 0
  pub login : Action World Fault (Unit {0})
  pub logout : Action World Fault (Unit {0})
  pub abort : Action World Fault (Unit {0})
  pub commit : Action World Fault (Unit {0})
  pub root_contains : Action World Fault Bool
  pub root_create : Action World Fault (Unit {0})
  pub root_get : Action World Fault Mapping
  pub root_remove : Action World Fault (Unit {0})
  pub contains_key : Mapping → String → Action World Fault Bool
  pub create : Mapping → String → Action World Fault (Unit {0})
  pub get : Mapping → String → Action World Fault Mapping
  pub put : Mapping → String → String → Action World Fault (Unit {0})
  pub remove : Mapping → String → Action World Fault (Unit {0})
  pub string_pairs : Mapping → Action World Fault (List (String × String))
  pub string_keys : Mapping → Action World Fault (List String)
