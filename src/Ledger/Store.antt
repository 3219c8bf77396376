-- ===== src/Ledger/Store.antt =====
-- Opening and provisioning the ledger's database (src/traceguard/ledger.py: `provision`,
-- `_check_file`, `_connection`). SQLite is modelled by the tables that the code reads and writes,
-- the file by what `lstat` answers.
use trace_guard.Common.{
  ℕ, String, Bool, true, false, ◌&&◌, ◌||◌, not, List, [], ◌∷◌, ◌==◌, ltb, eqb, if◌then◌else◌,
  Result, ok, err, value_error, integrity_error,
}
use trace_guard.Ledger.Rows.{Row, Reconciliation}

-- `info.st_mode`, `info.st_nlink`, `info.st_size`
pub data FileInfo : Type 0 where
  missing : FileInfo
  entry : Bool → ℕ → ℕ → FileInfo

pub record Database : Type 0 where
  pub file : FileInfo
  pub metadata : List (ℕ × String)
  pub rows : List Row
  pub reconciliations : List Reconciliation

abbrev pub schema_version : ℕ
schema_version = 3

-- `_check_file`
unfoldable pub check_file : FileInfo → Result (Unit {0})
check_file missing = err (value_error "initialized execution ledger is missing; stop admission")
check_file (entry regular links size) =
    if not regular || not (eqb links 1) || eqb size 0
    then err (value_error "initialized private regular execution ledger is required")
    else ok tt

abbrev identity_matches : String → List (ℕ × String) → Bool
identity_matches store_id ((schema, id) ∷ []) = eqb schema schema_version && id == store_id
identity_matches store_id _ = false

-- `_connection`: every operation begins with it.
unfoldable pub connect : String → Database → Result (Unit {0})
unfolding check_file
connect store_id db = elim (check_file db.file) [
  | err e ↦ err e
  | ok _ ↦
      if identity_matches store_id db.metadata
      then ok tt
      else err (value_error "execution ledger unavailable or incompatible; stop admission")
]

-- `not expected_store_id or len(expected_store_id) > 128`
abbrev pub is_bad_identity : ℕ → Bool
is_bad_identity length = eqb length 0 || ltb 128 length

abbrev occupied : FileInfo → Bool
occupied missing = false
occupied (entry _ _ _) = true

-- `provision`: the text's length is an argument beside the text. `O_EXCL` refuses an existing file.
-- The file that SQLite leaves is a private regular one, of the size that it wrote.
unfoldable pub provision : String → ℕ → ℕ → Database → Result String × Database
provision store_id length size db =
    if is_bad_identity length
    then (err (value_error "invalid store identity"), db)
    else if occupied db.file
    then (err (integrity_error "file exists"), db)
    else (
      ok store_id,
      record {
        file = entry true 1 size;
        metadata = (schema_version, store_id) ∷ [];
        rows = [];
        reconciliations = [];
      },
    )
