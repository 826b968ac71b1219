-- ===== src/Migrations/Stored.antt =====
-- What the stone keeps for the migrations, and how gemstone_py/migrations.py reads it:
-- `_normalize_applied_table`, `_normalize_lock` and `_applied_record`.
use gemstone_py.Prelude.{String, string_eq, Option, none, some, [], ◌∷◌}
use gemstone_py.Prelude.Dict.{Dict, lookup}
use gemstone_py.Prelude.Exec.{Result, ok, err}
use gemstone_py.Migrations.{MigrationStep, MigrationError, table_not_a_mapping}
use gemstone_py.Migrations.Plan.{AppliedRecord, AppliedTable}

-- A row of the stored table: a mapping, or another value by its text.
pub data StoredRow : Type 0 where
  row_fields : Dict String String → StoredRow
  row_text : String → StoredRow

pub data StoredTable : Type 0 where
  no_table not_a_mapping : StoredTable
  table_rows : Dict String StoredRow → StoredTable

-- `record.get(field, default)`
abbrev pub field_or : String → String → Dict String String → String
field_or field default fields = elim (lookup field fields) [ some v ↦ v | none ↦ default ]

-- A row with its defaults, the fields of the table only.
unfoldable pub normalize_row : String → StoredRow → AppliedRecord
normalize_row key (row_fields fields) = record {
  id = field_or "id" key fields;
  checksum = field_or "checksum" "" fields;
  applied_at = field_or "applied_at" "" fields;
  description = field_or "description" "" fields;
}
normalize_row key (row_text text) = record {
  id = key;
  checksum = text;
  applied_at = "";
  description = "";
}

unfoldable pub normalize_rows : Dict String StoredRow → AppliedTable
normalize_rows [] = []
normalize_rows ((key, row) ∷ rows) = (key, normalize_row key row) ∷ normalize_rows rows

unfoldable pub normalize_applied_table : StoredTable → Result MigrationError AppliedTable
normalize_applied_table no_table = ok []
normalize_applied_table not_a_mapping = err table_not_a_mapping
normalize_applied_table (table_rows rows) = ok (normalize_rows rows)

-- A stored lock: a mapping, or another value by its text.
pub data StoredLock : Type 0 where
  lock_fields : Dict String String → StoredLock
  lock_text : String → StoredLock

-- `DEFAULT_VERSION_ROOT` and `DEFAULT_LOCK_ROOT`
abbrev default_version_root : String
default_version_root = "GemstonePyMigrations"

abbrev pub default_lock_root : String
default_lock_root = "GemstonePyMigrationsLock"

unfoldable pub normalize_lock : Option StoredLock → Dict String String
normalize_lock none = []
normalize_lock (some (lock_fields fields)) = fields
normalize_lock (some (lock_text text)) =
    ("owner", text) ∷ ("acquired_at", "") ∷ ("root_key", default_version_root) ∷ []

abbrev pub applied_record : {C : Type 0} → MigrationStep C → String → AppliedRecord
applied_record step stamp = record {
  id = step.id;
  checksum = step.checksum;
  applied_at = stamp;
  description = step.description;
}
