-- ===== src/Backup/Restore/Rejected.antt =====
-- A restore that is refused before it starts to write.
use sealvault.Prelude.{ℕ, ◌≡◌, ◌≢◌, Text, Option, inl, inr, arith}
use sealvault.Prelude.Result.{err, Result-cases}
use sealvault.Encryption.BackupPassword
use sealvault.Backup.FileName
use sealvault.Error.{BackupError, CoreError, to_core_error, to_backup_error}
use sealvault.Backup.FileName.{BackupMetadata}
use sealvault.Backup.Latest.{fetch_archive}
use sealvault.Backup.Restore.{open_archive, take_over, restore_backup_inner}
use sealvault.System.{System, World}

-- The errors that a restore names itself.
unfoldable pub IsRefusal : BackupError → Type 0
IsRefusal e = (core : CoreError) → e ≢ BackupError.error core

module _ ⦃sys : System⦄ where
  -- Opening an archive changes nothing.
  open_archive-state :
      (password archive : Text) (w : World) → (open_archive password archive w).1 ≡ w
  unfolding open_archive
  open_archive-state password archive w = ground arith

  fetch_archive-frame :
      (name : Text) (w : World)
      → let v = (fetch_archive name w).1 in
        (v.db ≡ w.db)
        × (v.db_file ≡ w.db_file)
        × (v.keychain ≡ w.keychain)
        × (v.storage ≡ w.storage)
  unfolding fetch_archive
  fetch_archive-frame name w = (ground arith, ground arith, ground arith, ground arith)

  -- A restore that answers with another error than one of the application, such as a wrong password,
  -- a missing secret or a missing file, leaves the database, its file, the keychain and the storage.
  pub restore_backup_inner-refusal :
      (up : ℕ → Option ℕ) (device name password : Text) (w w' : World) (e : BackupError)
      → IsRefusal e
      → restore_backup_inner up device name password w ≡ (err e, w')
      → (w'.db ≡ w.db)
        × (w'.db_file ≡ w.db_file)
        × (w'.keychain ≡ w.keychain)
        × (w'.storage ≡ w.storage)
  unfolding restore_backup_inner IsRefusal to_backup_error
  restore_backup_inner-refusal up device name password w w' e own h =
      let (f1, f2, f3, f4) = fetch_archive-frame name w in
      let v : World = (fetch_archive name w).1 in
      elim (Result-cases (BackupPassword.from_str up password)) [
        | inl (_, p) ↦ (ground arith, ground arith, ground arith, ground arith)
        | inr (pw, p) ↦ elim (Result-cases (FileName.device_id_try_from device)) [
          | inl (_, q) ↦ (ground arith, ground arith, ground arith, ground arith)
          | inr (id, q) ↦ elim (Result-cases (fetch_archive name w).0) [
            | inl (_, r) ↦ (ground arith, ground arith, ground arith, ground arith)
            | inr (archive, r) ↦ elim (Result-cases (open_archive pw archive v).0) [
              | inl (_, o) ↦
                  let same : (open_archive pw archive v).1 ≡ v = open_archive-state pw archive v in
                  (ground arith, ground arith, ground arith, ground arith)
              | inr (opened, o) ↦
                  let u : World = (open_archive pw archive v).1 in
                  elim (Result-cases (take_over id opened u).0) [
                    | inl (x, t) ↦ absurd (own (to_core_error x) (ground arith))
                    | inr (_, t) ↦ absurd (ground arith)
                  ]
            ]
          ]
        ]
      ]
