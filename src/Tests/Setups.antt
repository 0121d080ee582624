-- ===== src/Tests/Setups.antt =====
-- Examples of wrapped keys, the removal of files and the setup, on the small system.
use sealvault.Prelude.{
  ℕ, ◌+◌, ◌≡◌, ◌≢◌, ◌↔◌, ◌<◌, ◌≤◌, refl, Text, Bool, true, false, Option, none, some, List, [], ◌∷◌,
  ◌++◌, codes, arith, length,
}
use sealvault.Prelude.Result.{ok, err}
use sealvault.Error.{Error, BackupError}
use sealvault.Encryption.KeyName.{KeyName}
use sealvault.Encryption.EncryptionOutput.{EncryptionOutput}
use sealvault.Prelude.Decimal
use sealvault.Encryption.Keys.{
  DataEncryptionKey, KeyEncryptionKey, db_backup_dek, to_encrypted, from_encrypted,
}
use sealvault.Encryption.Keys.Laws.{from_encrypted-to_encrypted}
use sealvault.Encryption.BackupKeys.{kdf_secret_from_keychain, nonce_from_str}
use sealvault.Db.{Db, LocalSettings}
use sealvault.Db.Settings.{fetch_backup_version, disable_backups}
use sealvault.Backup.FileName
use sealvault.Backup.FileName.{BackupMetadata, MetadataFromFileName, backup_file_name}
use sealvault.Backup.Create.{db_backup, should_delete, remove_outdated_backups}
use sealvault.Backup.Create.Outdated.{
  Listed, should_delete_iff, remove_outdated_backups_keep, remove_outdated_backups_exact,
}
use sealvault.Backup.Setup.{is_backup_of, delete_backups_for_device, set_up_or_rotate_backup}
use sealvault.Backup.Setup.Deleted.{delete_backups_for_device_keep, delete_backups_for_device_gone}
use sealvault.Backup.Setup.Enabled.{
  IsEnabled, set_up_or_rotate_backup-err, set_up_or_rotate_backup-IsEnabled,
}
use sealvault.System.{World, transaction, update}
use sealvault.Backup.Setup.Derived.{IsDerived, set_up_or_rotate_backup-IsDerived}
use sealvault.Encryption.Keychain.InMemory.{in_memory_keychain-IsLawful}
use sealvault.Tests.Toy.{
  toy, repeat, toy_db, toy_metadata, toy_world, toy_device, toy_settings, Files,
}
use sealvault.Tests.ToyLaws.{toy_crypto-IsAead, toy_storage-IsStorage}

abbrev sk_dek : DataEncryptionKey
sk_dek = record { name = KeyName.sk_data_encryption_key; key_material = repeat 32 9 }

abbrev sk_kek : KeyEncryptionKey
sk_kek = record { name = KeyName.sk_key_encryption_key; key_material = repeat 32 5 }

abbrev wrapped : EncryptionOutput
wrapped = record { cipher_text = repeat 32 9 ++ repeat 16 5; nonce = repeat 24 5 }

wrapped_run : to_encrypted ⦃sys = toy⦄ sk_dek sk_kek (toy_world 6 []) ≡ (ok wrapped, toy_world 6 [])
unfolding to_encrypted
wrapped_run = refl

from_encrypted-to_encrypted_example :
    from_encrypted ⦃sys = toy⦄ KeyName.sk_data_encryption_key wrapped sk_kek ≡ ok sk_dek
from_encrypted-to_encrypted_example =
    from_encrypted-to_encrypted ⦃sys = toy⦄ toy_crypto-IsAead sk_dek sk_kek (toy_world 6 [])
      (toy_world 6 []) wrapped (record { len = refl; nonzero = refl }) wrapped_run

abbrev file : ℕ → Text
file v = codes "sealvault_backup_v1_ios_1000_device-1_" ++ (Decimal.show v ++ codes ".zip")

abbrev files : Files
files = (file 3, []) ∷ ((codes "junk", []) ∷ ((file 7, []) ∷ []))

should_delete_iff_example : (should_delete ⦃sys = toy⦄ (file 3) (toy_metadata 7) ≡ true) ↔ (
    (meta : MetadataFromFileName) × (FileName.from_str Decimal.is_digit (file 3) ≡ ok meta)
    × (meta.device_id ≡ codes "device-1")
    × (meta.backup_version < 7))
should_delete_iff_example = should_delete_iff ⦃sys = toy⦄ (file 3) (toy_metadata 7)

newest_kept : should_delete ⦃sys = toy⦄ (file 7) (toy_metadata 7) ≡ false
unfolding should_delete FileName.from_str FileName.captures FileName.field Decimal.show Decimal.read
newest_kept = refl

remove_outdated_backups_keep_example :
    Listed ⦃sys = toy⦄ toy_storage-IsStorage
      (file 7)
      (remove_outdated_backups ⦃sys = toy⦄ (toy_metadata 7) (toy_world 7 files)).1
    ↔ Listed ⦃sys = toy⦄ toy_storage-IsStorage (file 7) (toy_world 7 files)
remove_outdated_backups_keep_example =
    remove_outdated_backups_keep ⦃sys = toy⦄ toy_storage-IsStorage (toy_metadata 7)
      (toy_world 7 files) (file 7) newest_kept

remove_outdated_backups_exact_example :
    Listed ⦃sys = toy⦄ toy_storage-IsStorage
      (file 3)
      (remove_outdated_backups ⦃sys = toy⦄ (toy_metadata 7) (toy_world 7 files)).1
    ↔ (Listed ⦃sys = toy⦄ toy_storage-IsStorage (file 3) (toy_world 7 files)
        × (should_delete ⦃sys = toy⦄ (file 3) (toy_metadata 7) ≡ false))
remove_outdated_backups_exact_example =
    remove_outdated_backups_exact ⦃sys = toy⦄ toy_storage-IsStorage (λ name s. refl)
      (toy_metadata 7) (toy_world 7 files) (file 3)

junk_is_none : is_backup_of ⦃sys = toy⦄ (codes "device-1") (codes "junk") ≡ false
unfolding is_backup_of FileName.from_str FileName.captures
junk_is_none = refl

abbrev deleted : World ⦃sys = toy⦄
deleted = (delete_backups_for_device ⦃sys = toy⦄ (codes "device-1") (toy_world 7 files)).1

delete_backups_for_device_keep_example :
    Listed ⦃sys = toy⦄ toy_storage-IsStorage (codes "junk") deleted
    ↔ Listed ⦃sys = toy⦄ toy_storage-IsStorage (codes "junk") (toy_world 7 files)
delete_backups_for_device_keep_example =
    delete_backups_for_device_keep ⦃sys = toy⦄ toy_storage-IsStorage (codes "device-1")
      (toy_world 7 files) (codes "junk") junk_is_none

delete_run :
    delete_backups_for_device ⦃sys = toy⦄ (codes "device-1") (toy_world 7 files) ≡ (ok tt, deleted)
unfolding delete_backups_for_device sealvault.Backup.Setup.delete_loop is_backup_of
    FileName.from_str FileName.captures FileName.field Decimal.show Decimal.read
delete_run = refl

is_backup : is_backup_of ⦃sys = toy⦄ (codes "device-1") (file 3) ≡ true
unfolding is_backup_of FileName.from_str FileName.captures FileName.field Decimal.show Decimal.read
is_backup = refl

delete_backups_for_device_gone_example : ¬ Listed ⦃sys = toy⦄ toy_storage-IsStorage (file 3) deleted
delete_backups_for_device_gone_example =
    delete_backups_for_device_gone ⦃sys = toy⦄ toy_storage-IsStorage (codes "device-1")
      (toy_world 7 files) deleted (file 3) delete_run is_backup

abbrev set_up : World ⦃sys = toy⦄
set_up = (set_up_or_rotate_backup ⦃sys = toy⦄ toy_device (toy_world 7 files)).1

set_up_run : set_up_or_rotate_backup ⦃sys = toy⦄ toy_device (toy_world 7 files) ≡ (ok tt, set_up)
unfolding set_up_or_rotate_backup transaction sealvault.Backup.Setup.set_up_and_enable
    sealvault.Backup.Setup.setup_or_rotate_keys_for_backup
    sealvault.Encryption.BackupKeys.setup_kdf_secret sealvault.Encryption.KeyMaterial.new
    sealvault.Prelude.Assoc.lookup sealvault.Prelude.Assoc.insert
    sealvault.Encryption.KeyName.key_eq sealvault.Encryption.KeyMaterial.from_slice
    sealvault.Encryption.BackupKeys.setup_password sealvault.Encryption.BackupKeys.random_nonce
    sealvault.Encryption.BackupKeys.derive_root sealvault.Encryption.BackupKeys.derive_db_backup_dek
    sealvault.Encryption.Keys.upsert_dek sealvault.Encryption.BackupKeys.derive_sk_backup_kek
    sealvault.Encryption.Keys.upsert_kek sealvault.Backup.Create.delete_backup FileName.captures
    FileName.device_id_try_from FileName.field FileName.from_str FileName.is_name_char
    FileName.literal FileName.os_from_str FileName.span delete_backups_for_device
    sealvault.Backup.Setup.delete_loop sealvault.Backup.Setup.disable_backup
    sealvault.Backup.Setup.enable_backups_in_db sealvault.Backup.Setup.fetch_dek is_backup_of
    sealvault.Backup.Setup.remove_keys_for_backup sealvault.Backup.Setup.rollback_enable_backup
    sealvault.Backup.Setup.set_up_derived_keys sealvault.Backup.Setup.store_encrypted_dek
    sealvault.Backup.Setup.wrap_sk_dek sealvault.Db.Deks.fetch_encrypted_dek
    sealvault.Db.Deks.fetch_id sealvault.Db.Deks.insert_led sealvault.Db.Deks.led_by_key
    sealvault.Db.Deks.set_encrypted_dek disable_backups sealvault.Db.Settings.set_backup_enabled
    sealvault.Db.Settings.set_backup_kdf_nonce
    sealvault.Db.Settings.update_backup_password_timestamp
    sealvault.Encryption.BackupKeys.delete_kdf_secret
    sealvault.Encryption.BackupKeys.delete_password kdf_secret_from_keychain
    sealvault.Encryption.BackupKeys.password_from_keychain
    sealvault.Encryption.BackupKeys.random_password sealvault.Encryption.BackupKeys.save_kdf_secret
    sealvault.Encryption.EncryptionOutput.to_vec sealvault.Encryption.EncryptionOutput.try_from
    sealvault.Encryption.KeyName.as_ref sealvault.Encryption.Keychain.delete_local_if_exists
    sealvault.Encryption.Keychain.delete_synced_if_exists sealvault.Encryption.Keychain.to_error
    sealvault.Encryption.Keys.decrypt sealvault.Encryption.Keys.delete_key_if_exists
    sealvault.Encryption.Keys.encrypt from_encrypted sealvault.Encryption.Keys.kek_from_keychain
    sealvault.Encryption.Keys.random_material to_encrypted
    sealvault.Encryption.Keys.try_random_bytes sealvault.Error.from_backup_error
    sealvault.Error.from_core_error Decimal.read sealvault.System.write
set_up_run = refl

set_up_or_rotate_backup-IsEnabled_example :
    (s : LocalSettings) × (set_up.db.local_settings ≡ some s)
    × IsEnabled ⦃sys = toy⦄ (toy_settings 7) s
set_up_or_rotate_backup-IsEnabled_example =
    set_up_or_rotate_backup-IsEnabled ⦃sys = toy⦄ toy_device (toy_world 7 files) set_up
      (toy_settings 7) refl set_up_run

-- Without its keys the setup fails.
abbrev pub locked : World ⦃sys = toy⦄
locked = record (toy_world 7 files) { keychain = record { local_data = []; synced_data = [] } }

abbrev pub set_up_locked : World ⦃sys = toy⦄
set_up_locked = (set_up_or_rotate_backup ⦃sys = toy⦄ toy_device locked).1

pub locked_run :
    set_up_or_rotate_backup ⦃sys = toy⦄ toy_device locked
    ≡ (err (Error.fatal "Keychain item doesn't exist"), set_up_locked)
unfolding set_up_or_rotate_backup transaction sealvault.Backup.Setup.set_up_and_enable
    sealvault.Backup.Setup.setup_or_rotate_keys_for_backup
    sealvault.Encryption.BackupKeys.setup_kdf_secret sealvault.Encryption.KeyMaterial.new
    sealvault.Prelude.Assoc.lookup sealvault.Prelude.Assoc.insert
    sealvault.Encryption.KeyName.key_eq sealvault.Encryption.KeyMaterial.from_slice
    sealvault.Encryption.BackupKeys.setup_password sealvault.Encryption.BackupKeys.random_nonce
    sealvault.Encryption.BackupKeys.derive_root sealvault.Encryption.BackupKeys.derive_db_backup_dek
    sealvault.Encryption.Keys.upsert_dek sealvault.Encryption.BackupKeys.derive_sk_backup_kek
    sealvault.Encryption.Keys.upsert_kek sealvault.Backup.Create.delete_backup FileName.captures
    FileName.device_id_try_from FileName.field FileName.from_str FileName.is_name_char
    FileName.literal FileName.os_from_str FileName.span delete_backups_for_device
    sealvault.Backup.Setup.delete_loop sealvault.Backup.Setup.disable_backup
    sealvault.Backup.Setup.enable_backups_in_db sealvault.Backup.Setup.fetch_dek is_backup_of
    sealvault.Backup.Setup.remove_keys_for_backup sealvault.Backup.Setup.rollback_enable_backup
    sealvault.Backup.Setup.set_up_derived_keys sealvault.Backup.Setup.store_encrypted_dek
    sealvault.Backup.Setup.wrap_sk_dek sealvault.Db.Deks.fetch_encrypted_dek
    sealvault.Db.Deks.fetch_id sealvault.Db.Deks.insert_led sealvault.Db.Deks.led_by_key
    sealvault.Db.Deks.set_encrypted_dek disable_backups sealvault.Db.Settings.set_backup_enabled
    sealvault.Db.Settings.set_backup_kdf_nonce
    sealvault.Db.Settings.update_backup_password_timestamp
    sealvault.Encryption.BackupKeys.delete_kdf_secret
    sealvault.Encryption.BackupKeys.delete_password kdf_secret_from_keychain
    sealvault.Encryption.BackupKeys.password_from_keychain
    sealvault.Encryption.BackupKeys.random_password sealvault.Encryption.BackupKeys.save_kdf_secret
    sealvault.Encryption.EncryptionOutput.to_vec sealvault.Encryption.EncryptionOutput.try_from
    sealvault.Encryption.KeyName.as_ref sealvault.Encryption.Keychain.delete_local_if_exists
    sealvault.Encryption.Keychain.delete_synced_if_exists sealvault.Encryption.Keychain.to_error
    sealvault.Encryption.Keys.decrypt sealvault.Encryption.Keys.delete_key_if_exists
    sealvault.Encryption.Keys.encrypt from_encrypted sealvault.Encryption.Keys.kek_from_keychain
    sealvault.Encryption.Keys.random_material to_encrypted
    sealvault.Encryption.Keys.try_random_bytes sealvault.Error.from_backup_error
    sealvault.Error.from_core_error Decimal.read sealvault.System.write Decimal.show
locked_run = refl

set_up_or_rotate_backup-err_example : set_up_locked.db ≡ disable_backups (toy_db 7)
set_up_or_rotate_backup-err_example =
    set_up_or_rotate_backup-err ⦃sys = toy⦄ (λ o. refl) (λ o. refl) toy_device locked set_up_locked
      (Error.fatal "Keychain item doesn't exist") locked_run

set_up_or_rotate_backup-IsDerived_example :
    (nonce : Text) × (s : LocalSettings) × (set_up.db.local_settings ≡ some s)
    × (s.backup_kdf_nonce ≡ some nonce)
    × IsDerived ⦃sys = toy⦄ in_memory_keychain-IsLawful (codes "device-1") nonce set_up
set_up_or_rotate_backup-IsDerived_example =
    set_up_or_rotate_backup-IsDerived ⦃sys = toy⦄ in_memory_keychain-IsLawful toy_device
      (toy_world 7 files) set_up (toy_settings 7) refl set_up_run
