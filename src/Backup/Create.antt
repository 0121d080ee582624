-- ===== src/Backup/Create.antt =====
-- core/src/backup/create.rs, with `verify_backup` of restore.rs: creating a backup and removing
-- the outdated ones.
pub mod Outdated
use sealvault.Prelude.{
  ℕ, Text, Bool, true, false, ◌&&◌, Option, none, some, List, [], ◌∷◌, ◌==◌, ltb, text_eq,
  if◌then◌else◌,
}
use sealvault.Prelude.Int.{ℤ}
use sealvault.Prelude.Result.{Result, ok, err}
use sealvault.Prelude.Exec.{◌>>=◌, ◌>>◌, pure, raise, lift, gets}
use sealvault.Error.{Error, BackupError}
use sealvault.Encryption.EncryptionOutput
use sealvault.Encryption.EncryptionOutput.{EncryptionOutput}
use sealvault.Encryption.Keys.{DataEncryptionKey, db_backup_dek, encrypt}
use sealvault.Db.Settings.{
  increment_backup_version, fetch_backup_version, fetch_kdf_nonce, update_backup_timestamp,
}
use sealvault.Backup.FileName
use sealvault.Backup.FileName.{
  BackupScheme, BackupMetadata, MetadataFromFileName, backup_file_name, default_os,
}
use sealvault.System.{
  System, World, App, BackupApp, as_backup, as_app, on_os, on_clock, query, update, connection,
  transaction,
}

-- The names of the device that runs the application.
pub record Device : Type 0 where
  pub device_id : Text
  pub device_name : Text

module _ ⦃sys : System⦄ where
  -- `should_delete`: an error is no error here, the file is just not a backup.
  unfoldable pub should_delete : Text → BackupMetadata → Bool
  should_delete file_name current = elim (FileName.from_str sys.unicode_digit file_name) [
    | err e ↦ false
    | ok meta ↦
        text_eq meta.device_id current.device_id && ltb meta.backup_version current.backup_version
  ]

  -- `delete_backup`, with its answer
  unfoldable pub delete_backup : Text → World → Bool × World
  delete_backup name w =
      let (is_ok, s) = sys.storage.delete_backup name w.storage in (is_ok, record w { storage = s })

  -- The loop of `remove_outdated_backups`. A deletion that fails is logged and no more.
  unfoldable pub remove_loop : BackupMetadata → List Text → World → World
  unfolding delete_backup
  remove_loop current [] w = w
  remove_loop current (name ∷ names) w =
      remove_loop current names (if should_delete name current then (delete_backup name w).1 else w)

  unfoldable pub remove_outdated_backups : BackupMetadata → BackupApp (Unit {0})
  remove_outdated_backups current w =
      (ok tt, remove_loop current (sys.storage.list_backup_file_names w.storage) w)

  -- `verify_backup`, on the bytes of the file
  unfoldable pub verify_backup : Text → ℕ → App (Unit {0})
  verify_backup bytes expected = do
    db ← lift (sys.db_from_bytes bytes)
    version ← lift (fetch_backup_version db)
    if version == expected
        then pure tt
        else raise (Error.fatal "Expected another backup version in backup")

  -- `create_verified_backup`
  unfoldable pub create_verified_backup : ℕ → App Text
  unfolding verify_backup
  create_verified_backup version = do
    on_os sys.os.file_access
    on_os sys.os.file_access
    contents ← gets (λ w. sys.db_to_bytes w.db_file)
    verify_backup contents version
    on_os sys.os.file_access
    pure contents

  -- `DataEncryptionKey::encrypt_backup`
  unfoldable pub encrypt_backup : DataEncryptionKey → Text → BackupMetadata → App EncryptionOutput
  encrypt_backup dek contents metadata = do
    meta_ser ← lift (sys.canonical_json metadata)
    encrypt contents meta_ser dek.key_material

  -- `copy_to_storage` and the test of its answer
  unfoldable pub copy_to_storage : Text → Text → BackupApp (Unit {0})
  copy_to_storage name contents w =
      let (is_ok, s) = sys.storage.copy_to_storage name contents w.storage in
      let w' = record w { storage = s } in
      if is_ok then (ok tt, w') else (err BackupError.failed_to_store_backup, w')

  -- `store_backup_zip`
  unfoldable pub store_backup_zip : BackupMetadata → EncryptionOutput → BackupApp (Unit {0})
  store_backup_zip metadata output = do
    as_backup (on_os sys.os.file_access)
    meta_ser ← as_backup (lift (sys.canonical_json metadata))
    archive ← as_backup (lift (sys.zip (EncryptionOutput.to_vec output) meta_ser))
    copy_to_storage (backup_file_name metadata) archive

  require_nonce : Option Text → App Text
  require_nonce (some nonce) = pure nonce
  require_nonce none = raise (
      Error.fatal "No KDF nonce in DB. Make sure backup is set up before attempting to create one.")

  -- The `PRAGMA wal_checkpoint(FULL)`, which may find nothing to do or be kept from finishing.
  unfoldable pub wal_checkpoint : App (Unit {0})
  wal_checkpoint = do
    flushed ← on_os sys.os.checkpoint
    λ w. (ok tt, if flushed then record w { db_file = w.db } else w)

  -- `BackupMetadata::builder` at the time `timestamp`
  unfoldable pub metadata_of : Device → ℕ → Text → ℤ → BackupMetadata
  metadata_of device version kdf_nonce timestamp = record {
    backup_scheme = BackupScheme.v1;
    backup_version = version;
    timestamp = timestamp;
    device_id = device.device_id;
    device_name = device.device_name;
    operating_system = default_os sys.os.os_name;
    kdf_nonce = sys.crypto.base64_encode kdf_nonce;
  }

  -- The end of that callback, from the metadata on.
  unfoldable pub store_verified_backup :
      Device → ℕ → Text → DataEncryptionKey → Text → App BackupMetadata
  unfolding metadata_of
  store_verified_backup device version kdf_nonce dek contents = do
    timestamp ← on_clock sys.os.unix_timestamp
    let metadata : BackupMetadata = metadata_of device version kdf_nonce timestamp
    output ← encrypt_backup dek contents metadata
    as_app (store_backup_zip metadata output)
    now ← on_clock sys.os.rfc3339_timestamp
    update (update_backup_timestamp now)
    pure metadata

  -- The callback of the exclusive transaction in `db_backup`.
  unfoldable pub db_backup_callback : Device → App BackupMetadata
  unfolding require_nonce
  db_backup_callback device = do
    version ← query fetch_backup_version
    maybe_nonce ← query fetch_kdf_nonce
    kdf_nonce ← require_nonce maybe_nonce
    dek ← db_backup_dek
    contents ← create_verified_backup version
    store_verified_backup device version kdf_nonce dek contents

  unfoldable pub db_backup : Device → App BackupMetadata
  unfolding wal_checkpoint
  db_backup device = do
    connection
    update increment_backup_version
    wal_checkpoint
    transaction (db_backup_callback device)

  make_backup : Device → BackupApp BackupMetadata
  make_backup device = do
    metadata ← as_backup (db_backup device)
    remove_outdated_backups metadata
    pure metadata

  unfoldable pub create_backup : Device → BackupApp BackupMetadata
  unfolding remove_outdated_backups make_backup
  create_backup device = do
    available ← gets (λ w. sys.storage.can_backup w.storage)
    if available then make_backup device else raise BackupError.backup_disabled
