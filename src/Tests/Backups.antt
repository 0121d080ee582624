-- ===== src/Tests/Backups.antt =====
-- Examples of the properties of transactions, wrapped keys and backups, on the small system.
use sealvault.Prelude.{
  ℕ, ◌+◌, ◌≡◌, ◌≢◌, ◌↔◌, ◌<◌, ◌≤◌, refl, Text, Bool, true, false, Option, none, some, List, [], ◌∷◌,
  ◌++◌, codes, arith, length,
}
use sealvault.Prelude.Result.{ok, err}
use sealvault.Error.{Error, BackupError}
use sealvault.Encryption.KeyName.{KeyName}
use sealvault.Encryption.Keys.{
  DataEncryptionKey, KeyEncryptionKey, db_backup_dek, to_encrypted, from_encrypted,
}
use sealvault.Encryption.BackupKeys.{kdf_secret_from_keychain, nonce_from_str}
use sealvault.Encryption.BackupPassword.Laws.{ascii_upper}
use sealvault.Db.{Db}
use sealvault.Db.Settings.{fetch_backup_version, disable_backups}
use sealvault.Backup.FileName
use sealvault.Backup.FileName.{BackupMetadata, MetadataFromFileName, backup_file_name}
use sealvault.Backup.Create.{create_backup, db_backup, should_delete, remove_outdated_backups}
use sealvault.Backup.Setup.{is_backup_of, delete_backups_for_device, set_up_or_rotate_backup}
use sealvault.Backup.Restore.{derive_backup_keys, open_archive, restore_backup_inner}
use sealvault.Backup.Restore.Rejected.{IsRefusal, restore_backup_inner-refusal}
use sealvault.Backup.Restore.Restored.{IsRestored, restore_backup_inner-IsRestored}
use sealvault.Backup.Restore.RoundTrip.{IsStored, db_backup-IsStored, open_archive-db_backup}
use sealvault.System.{World, transaction}
use sealvault.Backup.Restore.Created.{IsNamed, create_backup-IsStored}
use sealvault.Tests.Toy.{toy, repeat, toy_key, toy_metadata, toy_world, toy_device, find}
use sealvault.Tests.ToyLaws.{toy_crypto-IsAead, toy-IsArchiving}

abbrev toy_dek : DataEncryptionKey
toy_dek = record { name = KeyName.db_backup_data_encryption_key; key_material = toy_key }

-- After the backup: at version 7, with the one file.
abbrev backed_up : World ⦃sys = toy⦄
backed_up = (db_backup ⦃sys = toy⦄ toy_device (toy_world 6 [])).1

backup_made : db_backup ⦃sys = toy⦄ toy_device (toy_world 6 []) ≡ (ok (toy_metadata 7), backed_up)
unfolding db_backup transaction sealvault.Backup.Create.db_backup_callback fetch_backup_version
    sealvault.Db.Settings.increment_backup_version sealvault.Db.Settings.fetch_kdf_nonce
    db_backup_dek sealvault.Prelude.Assoc.lookup sealvault.Encryption.KeyName.key_eq
    sealvault.Encryption.KeyMaterial.from_slice sealvault.Backup.Create.create_verified_backup
    sealvault.Backup.Create.store_verified_backup sealvault.Backup.Create.encrypt_backup
    sealvault.Encryption.Keys.encrypt sealvault.Backup.Create.store_backup_zip
    sealvault.Backup.Create.copy_to_storage FileName.default_os sealvault.Backup.Create.metadata_of
    sealvault.Backup.Create.verify_backup sealvault.Backup.Create.wal_checkpoint backup_file_name
    FileName.get_backup_file_name FileName.show_scheme sealvault.Db.Settings.backup_version_try_from
    sealvault.Db.Settings.kdf_nonce_try_from sealvault.Db.Settings.next_version
    sealvault.Db.Settings.update_backup_timestamp sealvault.Encryption.EncryptionOutput.to_vec
    sealvault.Encryption.KeyMaterial.new sealvault.Encryption.Keychain.to_error
    sealvault.Encryption.Keys.try_random_bytes sealvault.Error.from_backup_error
    sealvault.Error.from_core_error sealvault.Error.is_user_error sealvault.Error.to_backup_error
    sealvault.Error.to_core_error sealvault.Prelude.Decimal.show
backup_made = refl

db_backup-IsStored_example :
    (dek : DataEncryptionKey) × ((db_backup_dek ⦃sys = toy⦄ (toy_world 6 [])).0 ≡ ok dek)
    × IsStored ⦃sys = toy⦄ dek (toy_metadata 7) backed_up
db_backup-IsStored_example =
    db_backup-IsStored ⦃sys = toy⦄ toy_crypto-IsAead toy-IsArchiving toy_device (toy_world 6 [])
      backed_up (toy_metadata 7) backup_made

abbrev toy_kek : KeyEncryptionKey
toy_kek = record { name = KeyName.sk_backup_key_encryption_key; key_material = toy_key }

dek_read : (db_backup_dek ⦃sys = toy⦄ (toy_world 6 [])).0 ≡ ok toy_dek
unfolding db_backup_dek sealvault.Prelude.Assoc.lookup sealvault.Encryption.KeyName.key_eq
    sealvault.Encryption.KeyMaterial.from_slice
dek_read = refl

secret_read :
    (kdf_secret_from_keychain ⦃sys = toy⦄ (codes "device-1") backed_up).0 ≡ ok (repeat 32 5)
unfolding kdf_secret_from_keychain sealvault.Prelude.Assoc.lookup db_backup transaction
    sealvault.Backup.Create.db_backup_callback fetch_backup_version
    sealvault.Db.Settings.increment_backup_version sealvault.Db.Settings.fetch_kdf_nonce
    db_backup_dek sealvault.Encryption.KeyName.key_eq sealvault.Encryption.KeyMaterial.from_slice
    sealvault.Backup.Create.create_verified_backup sealvault.Backup.Create.store_verified_backup
    sealvault.Backup.Create.encrypt_backup sealvault.Encryption.Keys.encrypt
    sealvault.Backup.Create.store_backup_zip sealvault.Backup.Create.copy_to_storage
    sealvault.Backup.Create.metadata_of sealvault.Backup.Create.verify_backup
    sealvault.Backup.Create.wal_checkpoint backup_file_name FileName.default_os
    FileName.get_backup_file_name FileName.show_scheme sealvault.Db.Settings.backup_version_try_from
    sealvault.Db.Settings.kdf_nonce_try_from sealvault.Db.Settings.next_version
    sealvault.Db.Settings.update_backup_timestamp sealvault.Encryption.EncryptionOutput.to_vec
    sealvault.Encryption.KeyMaterial.new sealvault.Encryption.Keychain.to_error
    sealvault.Encryption.Keys.try_random_bytes sealvault.Error.from_backup_error
    sealvault.Error.from_core_error sealvault.Error.is_user_error sealvault.Error.to_backup_error
    sealvault.Error.to_core_error sealvault.Prelude.Decimal.show
secret_read = refl

nonce_read : nonce_from_str ⦃sys = toy⦄ (repeat 16 5) ≡ ok (repeat 16 5)
unfolding nonce_from_str sealvault.Db.Settings.kdf_nonce_try_from
nonce_read = refl

keys_derived :
    derive_backup_keys ⦃sys = toy⦄ (repeat 20 b'3') (repeat 32 5) (repeat 16 5)
    ≡ ok (toy_dek, toy_kek)
unfolding derive_backup_keys sealvault.Encryption.BackupKeys.derive_root
    sealvault.Encryption.KeyMaterial.new sealvault.Encryption.BackupKeys.derive_db_backup_dek
    sealvault.Encryption.KeyMaterial.from_slice sealvault.Encryption.BackupKeys.derive_sk_backup_kek
keys_derived = refl

open_archive-db_backup_example :
    (archive contents : Text) × (d : Db (Unit {0})) × (find
        (backup_file_name (toy_metadata 7))
        backed_up.storage
      ≡ some archive)
    × (open_archive ⦃sys = toy⦄ (repeat 20 b'3') archive backed_up ≡ (
      ok (record { metadata = toy_metadata 7; sk_backup_kek = toy_kek; contents = contents }),
      backed_up,
    ))
    × (toy.db_from_bytes contents ≡ ok d)
    × (fetch_backup_version d ≡ ok 7)
open_archive-db_backup_example =
    open_archive-db_backup ⦃sys = toy⦄ toy_crypto-IsAead toy-IsArchiving toy_device (toy_world 6 [])
      backed_up (toy_metadata 7) backup_made (repeat 20 b'3') (repeat 32 5) (repeat 16 5) toy_dek
      toy_kek backed_up dek_read refl secret_read nonce_read keys_derived

abbrev up : ℕ → Option ℕ
up c = some (ascii_upper c)

abbrev name_of_7 : Text
name_of_7 = backup_file_name (toy_metadata 7)

abbrev restored : World ⦃sys = toy⦄
restored =
    (restore_backup_inner ⦃sys = toy⦄ up (codes "device-1") name_of_7 (repeat 20 b'3') backed_up).1

restore_done :
    restore_backup_inner ⦃sys = toy⦄ up (codes "device-1") name_of_7 (repeat 20 b'3') backed_up
    ≡ (ok (toy_metadata 7), restored)
unfolding restore_backup_inner sealvault.Encryption.BackupPassword.from_str
    FileName.device_id_try_from sealvault.Backup.Latest.fetch_archive db_backup transaction
    sealvault.Backup.Create.db_backup_callback fetch_backup_version
    sealvault.Db.Settings.increment_backup_version sealvault.Db.Settings.fetch_kdf_nonce
    db_backup_dek sealvault.Prelude.Assoc.lookup sealvault.Encryption.KeyName.key_eq
    sealvault.Encryption.KeyMaterial.from_slice sealvault.Backup.Create.create_verified_backup
    sealvault.Backup.Create.store_verified_backup sealvault.Backup.Create.encrypt_backup
    sealvault.Encryption.Keys.encrypt sealvault.Backup.Create.store_backup_zip
    sealvault.Backup.Create.copy_to_storage backup_file_name FileName.get_backup_file_name
    FileName.default_os sealvault.Prelude.Decimal.show open_archive
    sealvault.Encryption.EncryptionOutput.to_vec nonce_from_str derive_backup_keys
    sealvault.Encryption.BackupKeys.derive_root sealvault.Encryption.BackupKeys.derive_db_backup_dek
    sealvault.Encryption.BackupKeys.derive_sk_backup_kek sealvault.Backup.Restore.extract_backup
    sealvault.Encryption.EncryptionOutput.try_from sealvault.Backup.Restore.decrypt_backup
    sealvault.Backup.Create.metadata_of sealvault.Backup.Create.verify_backup
    sealvault.Backup.Create.wal_checkpoint FileName.is_name_char FileName.show_scheme
    sealvault.Backup.Latest.backup_metadata_from_zip
    sealvault.Backup.Restore.restore_decrypted_backup sealvault.Backup.Restore.take_over
    sealvault.Backup.Setup.fetch_dek sealvault.Backup.Setup.remove_keys_for_backup
    sealvault.Backup.Setup.rollback_enable_backup sealvault.Backup.Setup.rotate_sk_kek
    sealvault.Backup.Setup.set_up_or_rotate_sk_kek sealvault.Db.Deks.fetch_encrypted_dek
    sealvault.Db.Deks.fetch_id sealvault.Db.Deks.led_by_key sealvault.Db.Deks.set_encrypted_dek
    sealvault.Db.Settings.backup_version_try_from disable_backups
    sealvault.Db.Settings.kdf_nonce_try_from sealvault.Db.Settings.next_version
    sealvault.Db.Settings.set_backup_enabled sealvault.Db.Settings.set_backup_kdf_nonce
    sealvault.Db.Settings.update_backup_timestamp sealvault.Encryption.BackupKeys.delete_kdf_secret
    sealvault.Encryption.BackupKeys.delete_password kdf_secret_from_keychain
    sealvault.Encryption.BackupPassword.decode_symbol
    sealvault.Encryption.BackupPassword.decode_upper sealvault.Encryption.BackupPassword.is_symbol
    sealvault.Encryption.BackupPassword.parse_loop sealvault.Encryption.KeyMaterial.new
    sealvault.Encryption.KeyName.as_ref sealvault.Encryption.Keychain.delete_local_if_exists
    sealvault.Encryption.Keychain.delete_synced_if_exists sealvault.Encryption.Keychain.to_error
    sealvault.Encryption.Keys.decrypt sealvault.Encryption.Keys.delete_key_if_exists from_encrypted
    sealvault.Encryption.Keys.random_kek sealvault.Encryption.Keys.random_material to_encrypted
    sealvault.Encryption.Keys.try_random_bytes sealvault.Encryption.Keys.upsert_kek
    sealvault.Error.from_backup_error sealvault.Error.from_core_error sealvault.Error.is_user_error
    sealvault.Error.to_backup_error sealvault.Error.to_core_error
restore_done = refl

restore_backup_inner-IsRestored_example : IsRestored ⦃sys = toy⦄ (toy_metadata 7) restored.db
restore_backup_inner-IsRestored_example =
    restore_backup_inner-IsRestored ⦃sys = toy⦄ up (codes "device-1") name_of_7 (repeat 20 b'3')
      backed_up restored (toy_metadata 7) restore_done

abbrev refused : World ⦃sys = toy⦄
refused =
    (restore_backup_inner ⦃sys = toy⦄ up (codes "device-1") name_of_7 (repeat 20 b'4') backed_up).1

restore_refused :
    restore_backup_inner ⦃sys = toy⦄ up (codes "device-1") name_of_7 (repeat 20 b'4') backed_up
    ≡ (err BackupError.invalid_password, refused)
unfolding restore_backup_inner sealvault.Encryption.BackupPassword.from_str
    FileName.device_id_try_from sealvault.Backup.Latest.fetch_archive db_backup transaction
    sealvault.Backup.Create.db_backup_callback fetch_backup_version
    sealvault.Db.Settings.increment_backup_version sealvault.Db.Settings.fetch_kdf_nonce
    db_backup_dek sealvault.Prelude.Assoc.lookup sealvault.Encryption.KeyName.key_eq
    sealvault.Encryption.KeyMaterial.from_slice sealvault.Backup.Create.create_verified_backup
    sealvault.Backup.Create.store_verified_backup sealvault.Backup.Create.encrypt_backup
    sealvault.Encryption.Keys.encrypt sealvault.Backup.Create.store_backup_zip
    sealvault.Backup.Create.copy_to_storage backup_file_name FileName.get_backup_file_name
    FileName.default_os sealvault.Prelude.Decimal.show open_archive
    sealvault.Encryption.EncryptionOutput.to_vec nonce_from_str derive_backup_keys
    sealvault.Encryption.BackupKeys.derive_root sealvault.Encryption.BackupKeys.derive_db_backup_dek
    sealvault.Encryption.BackupKeys.derive_sk_backup_kek sealvault.Backup.Restore.extract_backup
    sealvault.Encryption.EncryptionOutput.try_from sealvault.Backup.Restore.decrypt_backup
    sealvault.Backup.Create.metadata_of sealvault.Backup.Create.verify_backup
    sealvault.Backup.Create.wal_checkpoint FileName.is_name_char FileName.show_scheme
    sealvault.Backup.Latest.backup_metadata_from_zip
    sealvault.Backup.Restore.restore_decrypted_backup sealvault.Backup.Restore.take_over
    sealvault.Backup.Setup.fetch_dek sealvault.Backup.Setup.remove_keys_for_backup
    sealvault.Backup.Setup.rollback_enable_backup sealvault.Backup.Setup.rotate_sk_kek
    sealvault.Backup.Setup.set_up_or_rotate_sk_kek sealvault.Db.Deks.fetch_encrypted_dek
    sealvault.Db.Deks.fetch_id sealvault.Db.Deks.led_by_key sealvault.Db.Deks.set_encrypted_dek
    sealvault.Db.Settings.backup_version_try_from disable_backups
    sealvault.Db.Settings.kdf_nonce_try_from sealvault.Db.Settings.next_version
    sealvault.Db.Settings.set_backup_enabled sealvault.Db.Settings.set_backup_kdf_nonce
    sealvault.Db.Settings.update_backup_timestamp sealvault.Encryption.BackupKeys.delete_kdf_secret
    sealvault.Encryption.BackupKeys.delete_password kdf_secret_from_keychain
    sealvault.Encryption.BackupPassword.decode_symbol
    sealvault.Encryption.BackupPassword.decode_upper sealvault.Encryption.BackupPassword.is_symbol
    sealvault.Encryption.BackupPassword.parse_loop sealvault.Encryption.KeyMaterial.new
    sealvault.Encryption.KeyName.as_ref sealvault.Encryption.Keychain.delete_local_if_exists
    sealvault.Encryption.Keychain.delete_synced_if_exists sealvault.Encryption.Keychain.to_error
    sealvault.Encryption.Keys.decrypt sealvault.Encryption.Keys.delete_key_if_exists from_encrypted
    sealvault.Encryption.Keys.random_kek sealvault.Encryption.Keys.random_material to_encrypted
    sealvault.Encryption.Keys.try_random_bytes sealvault.Encryption.Keys.upsert_kek
    sealvault.Error.from_backup_error sealvault.Error.from_core_error sealvault.Error.is_user_error
    sealvault.Error.to_backup_error sealvault.Error.to_core_error
restore_refused = refl

wrong_password : IsRefusal BackupError.invalid_password
unfolding IsRefusal
wrong_password = λ core h. cc

restore_backup_inner-refusal_example :
    (refused.db ≡ backed_up.db)
    × (refused.db_file ≡ backed_up.db_file)
    × (refused.keychain ≡ backed_up.keychain)
    × (refused.storage ≡ backed_up.storage)
restore_backup_inner-refusal_example =
    restore_backup_inner-refusal ⦃sys = toy⦄ up (codes "device-1") name_of_7 (repeat 20 b'4')
      backed_up refused BackupError.invalid_password wrong_password restore_refused

abbrev kept : World ⦃sys = toy⦄
kept = (create_backup ⦃sys = toy⦄ toy_device (toy_world 6 [])).1

backup_created : create_backup ⦃sys = toy⦄ toy_device (toy_world 6 []) ≡ (ok (toy_metadata 7), kept)
unfolding create_backup db_backup transaction sealvault.Backup.Create.db_backup_callback
    fetch_backup_version sealvault.Db.Settings.increment_backup_version
    sealvault.Db.Settings.fetch_kdf_nonce db_backup_dek sealvault.Prelude.Assoc.lookup
    sealvault.Encryption.KeyName.key_eq sealvault.Encryption.KeyMaterial.from_slice
    sealvault.Backup.Create.create_verified_backup sealvault.Backup.Create.store_verified_backup
    sealvault.Backup.Create.encrypt_backup sealvault.Encryption.Keys.encrypt
    sealvault.Backup.Create.store_backup_zip sealvault.Backup.Create.copy_to_storage
    sealvault.Backup.Create.delete_backup sealvault.Backup.Create.metadata_of
    sealvault.Backup.Create.remove_loop remove_outdated_backups should_delete
    sealvault.Backup.Create.verify_backup sealvault.Backup.Create.wal_checkpoint backup_file_name
    FileName.captures FileName.default_os FileName.device_id_try_from FileName.field
    FileName.from_str FileName.get_backup_file_name FileName.is_name_char FileName.literal
    FileName.os_from_str FileName.show_scheme FileName.span
    sealvault.Db.Settings.backup_version_try_from sealvault.Db.Settings.kdf_nonce_try_from
    sealvault.Db.Settings.next_version sealvault.Db.Settings.update_backup_timestamp
    sealvault.Encryption.EncryptionOutput.to_vec sealvault.Encryption.KeyMaterial.new
    sealvault.Encryption.Keychain.to_error sealvault.Encryption.Keys.try_random_bytes
    sealvault.Error.from_backup_error sealvault.Error.from_core_error sealvault.Error.is_user_error
    sealvault.Error.to_backup_error sealvault.Error.to_core_error sealvault.Prelude.Decimal.read
    sealvault.Prelude.Decimal.show
backup_created = refl

toy_metadata-IsNamed : IsNamed (toy_metadata 7)
unfolding FileName.is_name_char
toy_metadata-IsNamed = record {
  system = record { inhabited = λ p. cc; chars = (refl, (refl, (refl, tt))) };
  device = record {
    inhabited = λ p. cc;
    chars = (refl, (refl, (refl, (refl, (refl, (refl, (refl, (refl, tt))))))));
  };
  seconds = 1000;
  time = refl;
  time_fits = omega arith;
  version_fits = omega arith;
}

create_backup-IsStored_example :
    (dek : DataEncryptionKey) × ((db_backup_dek ⦃sys = toy⦄ (toy_world 6 [])).0 ≡ ok dek)
    × IsStored ⦃sys = toy⦄ dek (toy_metadata 7) kept
create_backup-IsStored_example =
    create_backup-IsStored ⦃sys = toy⦄ toy_crypto-IsAead toy-IsArchiving (λ c lt. refl) toy_device
      (toy_world 6 []) kept (toy_metadata 7) toy_metadata-IsNamed backup_created
