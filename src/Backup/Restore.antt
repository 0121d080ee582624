-- ===== src/Backup/Restore.antt =====
-- core/src/backup/restore.rs, from `restore_backup_inner` on: fetching and opening a backup,
-- putting its database in place, and taking it over on this device.
pub mod Rejected
pub mod Restored
pub mod Archive
pub mod RoundTrip
pub mod Created
use sealvault.Prelude.{ℕ, Text, Bool, true, false, Option, none, some, if◌then◌else◌}
use sealvault.Prelude.Result.{Result, ok, err, ◌>>=◌ as and_then}
use sealvault.Prelude.Exec.{◌>>=◌, ◌>>◌, pure, raise, lift, gets}
use sealvault.Error.{Error, BackupError}
use sealvault.Encryption.EncryptionOutput
use sealvault.Encryption.EncryptionOutput.{EncryptionOutput}
use sealvault.Encryption.BackupPassword
use sealvault.Encryption.Keys.{DataEncryptionKey, KeyEncryptionKey, decrypt}
use sealvault.Encryption.BackupKeys.{
  kdf_secret_from_keychain, nonce_from_str, derive_root, derive_db_backup_dek, derive_sk_backup_kek,
}
use sealvault.Backup.FileName
use sealvault.Backup.FileName.{BackupMetadata}
use sealvault.Backup.Create.{verify_backup}
use sealvault.Backup.Setup.{set_up_or_rotate_sk_kek, rollback_enable_backup}
use sealvault.Backup.Latest.{fetch_archive, backup_metadata_from_zip}
use sealvault.System.{System, World, App, BackupApp, as_backup, or_error, on_os}

-- What has been read of a backup: its metadata, the database, and the key of the secret keys.
pub record OpenedBackup : Type 0 where
  pub metadata : BackupMetadata
  pub sk_backup_kek : KeyEncryptionKey
  pub contents : Text

module _ ⦃sys : System⦄ where
  -- `DataEncryptionKey::decrypt_backup`
  unfoldable pub decrypt_backup :
      DataEncryptionKey → EncryptionOutput → BackupMetadata → Result Error Text
  unfolding decrypt
  decrypt_backup dek output metadata =
      and_then (sys.canonical_json metadata) λ meta_ser. decrypt output meta_ser dek.key_material

  -- The two keys that are derived from the password, the secret and the nonce.
  unfoldable pub derive_backup_keys :
      Text → Text → Text → Result Error (DataEncryptionKey × KeyEncryptionKey)
  derive_backup_keys password secret nonce = and_then (derive_root password secret nonce) λ root.
      and_then (derive_db_backup_dek root)
        λ dek. and_then (derive_sk_backup_kek root) λ kek. ok (dek, kek)

  -- The encrypted database in the archive.
  unfoldable pub extract_backup : Text → Result Error EncryptionOutput
  extract_backup archive = and_then (sys.unzip_backup archive) EncryptionOutput.try_from

  -- The archive with its keys: from the metadata to the decrypted database.
  unfoldable pub open_archive : Text → Text → BackupApp OpenedBackup
  unfolding backup_metadata_from_zip kdf_secret_from_keychain
  open_archive password archive = do
    metadata ← as_backup (backup_metadata_from_zip archive)
    kdf_secret ←
        or_error BackupError.kdf_secret_not_available (kdf_secret_from_keychain metadata.device_id)
    kdf_nonce ← as_backup (lift (nonce_from_str metadata.kdf_nonce))
    (dek, kek) ← as_backup (lift (derive_backup_keys password kdf_secret kdf_nonce))
    output ← as_backup (lift (extract_backup archive))
    contents ← or_error BackupError.invalid_password (lift (decrypt_backup dek output metadata))
    pure (record { metadata = metadata; sk_backup_kek = kek; contents = contents })

  -- `write_all`. Bytes that are no database leave the database of the model, and are found next.
  write_contents : Text → App (Unit {0})
  write_contents contents w = elim (sys.db_from_bytes contents) [
    | err e ↦ (ok tt, w)
    | ok d ↦ (ok tt, record w { db = d; db_file = d })
  ]

  -- `restore_decrypted_backup`
  unfoldable pub restore_decrypted_backup : BackupMetadata → Text → App (Unit {0})
  unfolding write_contents
  restore_decrypted_backup metadata contents = do
    on_os sys.os.file_access
    on_os sys.os.file_access
    write_contents contents
    verify_backup contents metadata.backup_version

  -- The database in its place, with a new key for the secret keys and backups disabled.
  unfoldable pub take_over : Text → OpenedBackup → App BackupMetadata
  unfolding restore_decrypted_backup
  take_over device_id opened = do
    restore_decrypted_backup opened.metadata opened.contents
    set_up_or_rotate_sk_kek opened.sk_backup_kek
    rollback_enable_backup device_id
    pure opened.metadata

  -- `restore_backup_inner`, with the device and the password as the caller gives them
  unfoldable pub restore_backup_inner :
      (ℕ → Option ℕ) → Text → Text → Text → BackupApp BackupMetadata
  restore_backup_inner to_uppercase core_device_id backup_file_name password_text = do
    password ←
        or_error BackupError.invalid_password
          (lift (BackupPassword.from_str to_uppercase password_text))
    device_id ← as_backup (lift (FileName.device_id_try_from core_device_id))
    archive ← fetch_archive backup_file_name
    opened ← open_archive password archive
    as_backup (take_over device_id opened)
