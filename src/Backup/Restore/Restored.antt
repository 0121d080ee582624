-- ===== src/Backup/Restore/Restored.antt =====
-- The database after a restore that succeeds.
use sealvault.Prelude.{ℕ, ◌≡◌, refl, Text, Option, none, false, inl, inr, arith, ap, ◌∙◌}
use sealvault.Prelude.Result.{ok, Result-cases}
use sealvault.Encryption.KeyName.{KeyName}
use sealvault.Encryption.Keys.{
  DataEncryptionKey, delete_key_if_exists, random_kek, to_encrypted, upsert_kek, KeyEncryptionKey,
}
use sealvault.Encryption.BackupKeys.{delete_password, delete_kdf_secret}
use sealvault.Db.{Db}
use sealvault.Db.Settings.{
  disable_backups, fetch_backup_version, fetch_backup_enabled, fetch_kdf_nonce,
}
use sealvault.Db.Settings.Laws.{disable_backups_lem}
use sealvault.Db.Deks.{set_encrypted_dek}
use sealvault.Backup.FileName.{BackupMetadata}
use sealvault.Backup.Create.{verify_backup}
use sealvault.Backup.Setup.{
  fetch_dek, remove_keys_for_backup, rotate_sk_kek, set_up_or_rotate_sk_kek, rollback_enable_backup,
}
use sealvault.Backup.Restore.{
  OpenedBackup, restore_decrypted_backup, open_archive, take_over, restore_backup_inner,
}
use sealvault.Encryption.BackupPassword
use sealvault.Backup.FileName
use sealvault.Backup.Latest.{fetch_archive}
use sealvault.System.{System, World, App, transaction}

module _ ⦃sys : System⦄ where
  fetch_dek-state :
      (name : KeyName) (kek : KeyEncryptionKey) (w : World) → (fetch_dek name kek w).1 ≡ w
  unfolding fetch_dek
  fetch_dek-state name kek w = ground arith

  random_kek-db : (name : KeyName) (w : World) → (random_kek name w).1.db ≡ w.db
  unfolding random_kek
  random_kek-db name w = ground arith

  to_encrypted-db :
      (dek : DataEncryptionKey) (kek : KeyEncryptionKey) (w : World)
      → (to_encrypted dek kek w).1.db ≡ w.db
  unfolding to_encrypted
  to_encrypted-db dek kek w = ground arith

  rotate_sk_kek-settings :
      (kek : KeyEncryptionKey) (w : World)
      → (rotate_sk_kek kek w).1.db.local_settings ≡ w.db.local_settings
  unfolding rotate_sk_kek upsert_kek set_encrypted_dek
  rotate_sk_kek-settings kek w =
      let v : World = (random_kek KeyName.sk_key_encryption_key w).1 in
      elim (Result-cases (fetch_dek KeyName.sk_data_encryption_key kek w).0) [
        | inl (_, p) ↦ ground (arith, fetch_dek-state KeyName.sk_data_encryption_key kek w)
        | inr ((id, dek), p) ↦ elim (Result-cases (random_kek KeyName.sk_key_encryption_key w).0) [
          | inl (_, q) ↦ ground (
            arith,
            fetch_dek-state KeyName.sk_data_encryption_key kek w,
            random_kek-db KeyName.sk_key_encryption_key w,
          )
          | inr (sk_kek, q) ↦ ground (
            arith,
            fetch_dek-state KeyName.sk_data_encryption_key kek w,
            random_kek-db KeyName.sk_key_encryption_key w,
            to_encrypted-db dek sk_kek v,
          )
        ]
      ]

  transaction-settings :
      {A : Type 0} (body : App A) (w : World)
      → ((v : World) → (body v).1.db.local_settings ≡ v.db.local_settings)
      → (transaction body w).1.db.local_settings ≡ w.db.local_settings
  unfolding transaction
  transaction-settings body w h = ground (arith, h (record w { os = (sys.os.connect w.os).1 }))

  set_up_or_rotate_sk_kek-settings :
      (kek : KeyEncryptionKey) (w : World)
      → (set_up_or_rotate_sk_kek kek w).1.db.local_settings ≡ w.db.local_settings
  unfolding set_up_or_rotate_sk_kek
  set_up_or_rotate_sk_kek-settings kek w =
      transaction-settings (rotate_sk_kek kek) w (rotate_sk_kek-settings kek)

  pub remove_keys_for_backup-db :
      (device : Text) (w : World) → (remove_keys_for_backup device w).1.db ≡ w.db
  unfolding remove_keys_for_backup delete_key_if_exists delete_password delete_kdf_secret
  remove_keys_for_backup-db device w = refl

  pub rollback_enable_backup-ok :
      (device : Text) (w w' : World)
      → rollback_enable_backup device w ≡ (ok tt, w')
      → w'.db ≡ disable_backups w.db
  unfolding rollback_enable_backup transaction remove_keys_for_backup delete_key_if_exists
      delete_password delete_kdf_secret
  rollback_enable_backup-ok device w w' h =
      let o : sys.os.State = (sys.os.connect w.os).1 in
      elim (Result-cases (sys.os.connect w.os).0) [
        | inl (_, p) ↦ absurd (ground arith)
        | inr (_, p) ↦ elim (Result-cases (sys.os.commit o).0) [
          | inl (_, q) ↦ absurd (ground arith)
          | inr (_, q) ↦ ground arith
        ]
      ]

  restore_decrypted_backup-ok :
      (meta : BackupMetadata) (contents : Text) (w : World)
      → (restore_decrypted_backup meta contents w).0 ≡ ok tt
      → fetch_backup_version (restore_decrypted_backup meta contents w).1.db
        ≡ ok meta.backup_version
  unfolding restore_decrypted_backup verify_backup
  restore_decrypted_backup-ok meta contents w h = ground arith

  fetch_backup_version-settings :
      (d d' : Db sys.Tables)
      → d.local_settings ≡ d'.local_settings
      → fetch_backup_version d ≡ fetch_backup_version d'
  unfolding fetch_backup_version
  fetch_backup_version-settings d d' h = ground arith

  -- What a backed up database is after it is taken over: at the version of the backup, with backups
  -- disabled and without a nonce.
  pub record IsRestored (meta : BackupMetadata) (d : Db sys.Tables) : Type 0 where
    pub version : fetch_backup_version d ≡ ok meta.backup_version
    pub disabled : fetch_backup_enabled d ≡ ok false
    pub nonce : fetch_kdf_nonce d ≡ ok none

  take_over-IsRestored :
      (device : Text) (opened : OpenedBackup) (meta : BackupMetadata) (w w' : World)
      → take_over device opened w ≡ (ok meta, w')
      → IsRestored meta w'.db
  unfolding take_over
  take_over-IsRestored device opened meta w w' h =
      let v : World = (restore_decrypted_backup opened.metadata opened.contents w).1 in
      let u : World = (set_up_or_rotate_sk_kek opened.sk_backup_kek v).1 in
      elim (Result-cases (restore_decrypted_backup opened.metadata opened.contents w).0) [
        | inl (_, p) ↦ absurd (ground arith)
        | inr (_, p) ↦ elim (Result-cases (set_up_or_rotate_sk_kek opened.sk_backup_kek v).0) [
          | inl (_, q) ↦ absurd (ground arith)
          | inr (_, q) ↦ elim (Result-cases (rollback_enable_backup device u).0) [
            | inl (_, t) ↦ absurd (ground arith)
            | inr (_, t) ↦
                let same : opened.metadata ≡ meta = ground arith in
                let end : (rollback_enable_backup device u).1 ≡ w' = ground arith in
                let off : w'.db ≡ disable_backups u.db =
                  rollback_enable_backup-ok device u w' (λ i. (t i, end i)) in
                let version : fetch_backup_version u.db ≡ ok meta.backup_version =
                  fetch_backup_version-settings u.db v.db (set_up_or_rotate_sk_kek-settings _ v)
                  ∙ restore_decrypted_backup-ok opened.metadata opened.contents w p
                  ∙ ap (λ m. ok m.backup_version) same in
                let (a, b, c, _, _) = disable_backups_lem u.db meta.backup_version version in
                record { version = rw off a; disabled = rw off b; nonce = rw off c }
          ]
        ]
      ]

  -- A restore that succeeds leaves a database at the version that the metadata of the backup names,
  -- with backups disabled and without a nonce.
  pub restore_backup_inner-IsRestored :
      (up : ℕ → Option ℕ) (device name password : Text) (w w' : World) (meta : BackupMetadata)
      → restore_backup_inner up device name password w ≡ (ok meta, w')
      → IsRestored meta w'.db
  unfolding restore_backup_inner
  restore_backup_inner-IsRestored up device name password w w' meta h =
      let v : World = (fetch_archive name w).1 in
      elim (Result-cases (BackupPassword.from_str up password)) [
        | inl (_, p) ↦ absurd (ground arith)
        | inr (pw, p) ↦ elim (Result-cases (FileName.device_id_try_from device)) [
          | inl (_, q) ↦ absurd (ground arith)
          | inr (id, q) ↦ elim (Result-cases (fetch_archive name w).0) [
            | inl (_, r) ↦ absurd (ground arith)
            | inr (archive, r) ↦ elim (Result-cases (open_archive pw archive v).0) [
              | inl (_, o) ↦ absurd (ground arith)
              | inr (opened, o) ↦
                  let u : World = (open_archive pw archive v).1 in
                  elim (Result-cases (take_over id opened u).0) [
                    | inl (_, t) ↦ absurd (ground arith)
                    | inr (m, t) ↦ take_over-IsRestored id opened meta u w' (ground arith)
                  ]
            ]
          ]
        ]
      ]
