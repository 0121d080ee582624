-- ===== src/Backup/Setup.antt =====
-- core/src/backup/setup.rs: setting up, rotating and disabling backups, and the secret key
-- encryption key after a restore.
pub mod Enabled
pub mod KeysFrame
pub mod Upserts
pub mod Derived
pub mod Deleted
use sealvault.Prelude.{
  ℕ, Text, Bool, true, false, ◌&&◌, ◌||◌, Option, none, some, List, [], ◌∷◌, text_eq, if◌then◌else◌,
}
use sealvault.Prelude.Result.{Result, ok, err}
use sealvault.Prelude.Exec.{◌>>=◌, ◌>>◌, pure, raise, lift, gets}
use sealvault.Error.{Error, BackupError}
use sealvault.Encryption.KeyName.{KeyName, as_ref}
use sealvault.Encryption.EncryptionOutput.{EncryptionOutput}
use sealvault.Encryption.BackupPassword.{display_to_user}
use sealvault.Encryption.Keys.{
  DataEncryptionKey, KeyEncryptionKey, from_encrypted, to_encrypted, kek_from_keychain, random_kek,
  upsert_dek, upsert_kek, delete_key_if_exists,
}
use sealvault.Encryption.BackupKeys.{
  setup_kdf_secret, setup_password, random_nonce, derive_root, derive_db_backup_dek,
  derive_sk_backup_kek, delete_kdf_secret, delete_password, password_from_keychain,
}
use sealvault.Db.Settings.{
  set_backup_kdf_nonce, update_backup_password_timestamp, set_backup_enabled, fetch_backup_enabled,
  disable_backups,
}
use sealvault.Db.Deks.{fetch_encrypted_dek, fetch_id, set_encrypted_dek, insert_led}
use sealvault.Backup.FileName
use sealvault.Backup.Create.{Device, delete_backup}
use sealvault.System.{
  System, World, App, BackupApp, as_app, ignore, on_clock, query, update, write, connection,
  transaction,
}

module _ ⦃sys : System⦄ where
  -- `m::DataEncryptionKey::fetch_dek`
  unfoldable pub fetch_dek : KeyName → KeyEncryptionKey → App (Text × DataEncryptionKey)
  fetch_dek name kek = do
    (dek_id, output) ← query (fetch_encrypted_dek name (as_ref kek.name))
    dek ← lift (from_encrypted name output kek)
    pure (dek_id, dek)

  -- The encryption of a key that is there is replaced, and otherwise inserted.
  unfoldable pub store_encrypted_dek : Text → KeyEncryptionKey → EncryptionOutput → App (Unit {0})
  store_encrypted_dek dek_id kek output = do
    found ← gets (λ w. fetch_id dek_id (as_ref kek.name) w.db)
    now ← on_clock sys.os.rfc3339_timestamp
    elim found [
      | some id ↦ update (set_encrypted_dek id output now)
      | none ↦ write (insert_led dek_id output (as_ref kek.name) now)
    ]

  -- The new keys of the backup, derived from a new password, secret and nonce, in the keychain.
  unfoldable pub set_up_derived_keys : Text → App Text
  set_up_derived_keys device_id = do
    secret ← setup_kdf_secret device_id
    password ← setup_password
    nonce ← random_nonce
    root ← lift (derive_root password secret nonce)
    db_backup_dek ← lift (derive_db_backup_dek root)
    upsert_dek db_backup_dek
    sk_backup_kek ← lift (derive_sk_backup_kek root)
    upsert_kek sk_backup_kek
    pure nonce

  -- The secret key data encryption key, encrypted under the backup key.
  unfoldable pub wrap_sk_dek : App (Unit {0})
  wrap_sk_dek = do
    sk_backup_kek ← kek_from_keychain KeyName.sk_backup_key_encryption_key
    sk_kek ← kek_from_keychain KeyName.sk_key_encryption_key
    (sk_dek_id, sk_dek) ← fetch_dek KeyName.sk_data_encryption_key sk_kek
    encrypted ← to_encrypted sk_dek sk_backup_kek
    store_encrypted_dek sk_dek_id sk_backup_kek encrypted

  -- `setup_or_rotate_keys_for_backup`
  unfoldable pub setup_or_rotate_keys_for_backup : Text → App Text
  unfolding set_up_derived_keys wrap_sk_dek
  setup_or_rotate_keys_for_backup device_id = do
    nonce ← set_up_derived_keys device_id
    wrap_sk_dek
    pure nonce

  -- `enable_backups_in_db`
  unfoldable pub enable_backups_in_db : Text → App (Unit {0})
  enable_backups_in_db nonce = do
    update (set_backup_kdf_nonce (some nonce))
    now ← on_clock sys.os.rfc3339_timestamp
    update (update_backup_password_timestamp now)
    update (set_backup_enabled true)

  -- `remove_keys_for_backup`: what fails is passed over.
  unfoldable pub remove_keys_for_backup : Text → App (Unit {0})
  remove_keys_for_backup device_id = do
    ignore (delete_kdf_secret device_id)
    ignore delete_password
    ignore (delete_key_if_exists KeyName.sk_backup_key_encryption_key)
    ignore (delete_key_if_exists KeyName.db_backup_data_encryption_key)

  -- `rollback_enable_backup`
  unfoldable pub rollback_enable_backup : Text → App (Unit {0})
  rollback_enable_backup device_id = do
    transaction (update disable_backups)
    remove_keys_for_backup device_id

  -- A file of the storage is a backup that this device made.
  unfoldable pub is_backup_of : Text → Text → Bool
  is_backup_of device_id name = elim (FileName.from_str sys.unicode_digit name) [
    | err e ↦ false
    | ok meta ↦ text_eq meta.device_id device_id
  ]

  -- The loop of `delete_backups_for_device`, with `did_err`. It goes on after a failure.
  unfoldable pub delete_loop : Text → List Text → Bool → World → Bool × World
  unfolding delete_backup
  delete_loop device_id [] did_err w = (did_err, w)
  delete_loop device_id (name ∷ names) did_err w =
      let step : Bool × World =
        if is_backup_of device_id name
        then (let (success, w') = delete_backup name w in (if success then did_err else true, w'))
        else (did_err, w) in
      let (did_err', w') = step in delete_loop device_id names did_err' w'

  unfoldable pub delete_backups_for_device : Text → BackupApp (Unit {0})
  delete_backups_for_device device_id w =
      let (did_err, w') =
        delete_loop device_id (sys.storage.list_backup_file_names w.storage) false w in
      if did_err then (err BackupError.failed_to_delete_backup, w') else (ok tt, w')

  -- `disable_backup`
  unfoldable pub disable_backup : Text → App (Unit {0})
  disable_backup device_id = do
    rollback_enable_backup device_id
    as_app (delete_backups_for_device device_id)

  -- The callback of the transaction in `set_up_or_rotate_backup`.
  unfoldable pub set_up_and_enable : Text → App (Unit {0})
  set_up_and_enable device_id = do
    nonce ← setup_or_rotate_keys_for_backup device_id
    enable_backups_in_db nonce

  -- `set_up_or_rotate_backup`: on an error backups are disabled, and the first error is the answer
  -- if that succeeds.
  unfoldable pub set_up_or_rotate_backup : Device → App (Unit {0})
  set_up_or_rotate_backup device w =
      let (res, w') = transaction (set_up_and_enable device.device_id) w in
      elim res [ ok u ↦ (ok u, w') | err e ↦ (do disable_backup device.device_id; raise e) w' ]

  -- `display_backup_password`
  unfoldable pub display_backup_password : App Text
  display_backup_password = do password ← password_from_keychain; pure (display_to_user password)

  -- `is_backup_enabled`
  unfoldable pub is_backup_enabled : App Bool
  is_backup_enabled = do connection; query fetch_backup_enabled

  require_id : Option ℕ → App ℕ
  require_id (some id) = pure id
  require_id none = raise (
      Error.fatal
        "Local encrypted SK-DEK with SK-KEK is assumed to exist when calling `rotate_sk_kek`")

  -- The callback of the transaction in `set_up_or_rotate_sk_kek`.
  unfoldable pub rotate_sk_kek : KeyEncryptionKey → App (Unit {0})
  unfolding require_id
  rotate_sk_kek sk_backup_kek = do
    (dek_id, sk_dek) ← fetch_dek KeyName.sk_data_encryption_key sk_backup_kek
    sk_kek ← random_kek KeyName.sk_key_encryption_key
    encrypted ← to_encrypted sk_dek sk_kek
    found ← gets (λ w. fetch_id dek_id (as_ref sk_kek.name) w.db)
    sk_dek_id ← require_id found
    now ← on_clock sys.os.rfc3339_timestamp
    update (set_encrypted_dek sk_dek_id encrypted now)
    upsert_kek sk_kek

  -- `set_up_or_rotate_sk_kek`, on the restored database
  unfoldable pub set_up_or_rotate_sk_kek : KeyEncryptionKey → App (Unit {0})
  set_up_or_rotate_sk_kek sk_backup_kek = transaction (rotate_sk_kek sk_backup_kek)
