-- ===== src/Db/Deks.antt =====
-- core/src/db/models/data_encryption_key.rs and core/src/db/models/local_encrypted_dek.rs: the
-- data encryption keys and their encryptions under key encryption keys.
use Prim.Native.Nat.{max}
use sealvault.Prelude.{
  ℕ, ◌+◌, ◌==◌, Text, String, Bool, ◌&&◌, Option, none, some, List, [], ◌∷◌, ◌++◌, text_eq, str_eq,
  if◌then◌else◌,
}
use sealvault.Prelude.Result.{Result, ok, err, ok_or, ◌>>=◌}
use sealvault.Error.{Error}
use sealvault.Encryption.KeyName.{KeyName, as_ref}
use sealvault.Encryption.EncryptionOutput
use sealvault.Encryption.EncryptionOutput.{EncryptionOutput}
use sealvault.Db.{DekRow, LedRow, Db, record_not_found, database_error}

-- `data_encryption_keys.name` is unique, so the first row is the only one.
dek_by_name : String → List DekRow → Option Text
dek_by_name name [] = none
dek_by_name name (r ∷ rows) =
    let rest = dek_by_name name rows in if str_eq r.name name then some r.deterministic_id else rest

-- `(dek_id, kek_name)` is unique.
is_led : Text → String → LedRow → Bool
is_led dek_id kek_name r = text_eq r.dek_id dek_id && str_eq r.kek_name kek_name

unfoldable pub led_by_key : Text → String → List LedRow → Option LedRow
unfolding is_led
led_by_key dek_id kek_name [] = none
led_by_key dek_id kek_name (r ∷ rows) =
    let rest = led_by_key dek_id kek_name rows in if is_led dek_id kek_name r then some r else rest

-- The key that SQLite gives to a new row.
next_id : List LedRow → ℕ
next_id [] = 1
next_id (r ∷ rows) = max (r.id + 1) (next_id rows)

set_rows : ℕ → Text → Text → List LedRow → List LedRow
set_rows id encrypted now [] = []
set_rows id encrypted now (r ∷ rows) =
    let rest = set_rows id encrypted now rows in
    (if r.id == id then record r { encrypted_dek = encrypted; updated_at = some now } else r) ∷ rest

module _ {T : Type 0} where
  -- The query of `DataEncryptionKey::fetch_dek`, with the column read by `EncryptionOutput`.
  unfoldable pub fetch_encrypted_dek :
      KeyName → String → Db T → Result Error (Text × EncryptionOutput)
  unfolding dek_by_name led_by_key
  fetch_encrypted_dek dek_name kek_name db = do
    dek_id ← ok_or record_not_found (dek_by_name (as_ref dek_name) db.data_encryption_keys)
    row ← ok_or record_not_found (led_by_key dek_id kek_name db.local_encrypted_deks)
    output ← EncryptionOutput.try_from row.encrypted_dek
    ok (dek_id, output)

  -- `LocalEncryptedDek::fetch_id`
  unfoldable pub fetch_id : Text → String → Db T → Option ℕ
  unfolding led_by_key
  fetch_id dek_id kek_name db = elim (led_by_key dek_id kek_name db.local_encrypted_deks) [
    | none ↦ none
    | some r ↦ some r.id
  ]

  -- `LocalEncryptedDek::set_encrypted_dek`, at the time `now`
  unfoldable pub set_encrypted_dek : ℕ → EncryptionOutput → Text → Db T → Db T
  unfolding set_rows
  set_encrypted_dek id encrypted now db = record db {
    local_encrypted_deks =
        set_rows id (EncryptionOutput.to_vec encrypted) now db.local_encrypted_deks;
  }

  -- `NewLocalEncryptedDek::insert`, at the time `now`
  unfoldable pub insert_led : Text → EncryptionOutput → String → Text → Db T → Result Error (Db T)
  unfolding led_by_key next_id
  insert_led dek_id encrypted kek_name now db =
      elim (led_by_key dek_id kek_name db.local_encrypted_deks) [
        | some r ↦ err database_error
        | none ↦ ok (record db {
          local_encrypted_deks =
              db.local_encrypted_deks
              ++ (record {
                id = next_id db.local_encrypted_deks;
                dek_id = dek_id;
                encrypted_dek = EncryptionOutput.to_vec encrypted;
                kek_name = kek_name;
                created_at = now;
                updated_at = none;
              }
                  ∷ []);
        })
      ]
