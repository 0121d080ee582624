-- ===== src/Backup/Restore/Created.antt =====
-- `create_backup` as a whole: what is left in the storage after the outdated backups are removed.
use sealvault.Prelude.{
  ℕ, ◌≡◌, ◌≢◌, ◌≤◌, ◌<◌, ◌∙◌, refl, sym, ap, subst, Text, false, List, [], ◌∷◌, inl, inr,
  Bool-cases, arith,
}
use sealvault.Prelude.Decimal
use sealvault.Prelude.Int.{pos}
use sealvault.Prelude.Result.{ok, Result-cases}
use sealvault.Encryption.Keys.{DataEncryptionKey, db_backup_dek}
use sealvault.Encryption.Keys.Laws.{IsAead}
use sealvault.Backup.FileName
use sealvault.Backup.FileName.{BackupMetadata, MetadataFromFileName, backup_file_name}
use sealvault.Backup.FileName.Laws.{IsName, from_str-get_backup_file_name}
use sealvault.Backup.Create.{
  Device, should_delete, delete_backup, remove_loop, remove_outdated_backups, db_backup,
  create_backup,
}
use sealvault.Backup.Restore.Archive.{IsArchiving}
use sealvault.Backup.Restore.RoundTrip.{IsStored, IsStored-file, db_backup-IsStored}
use sealvault.System.{System, World}

-- Metadata whose texts can stand in a file name and whose numbers fit into 64 bits.
pub record IsNamed (meta : BackupMetadata) : Type 0 where
  pub system : IsName meta.operating_system
  pub device : IsName meta.device_id
  pub seconds : ℕ
  pub time : meta.timestamp ≡ pos seconds
  pub time_fits : seconds ≤ Decimal.max_i64
  pub version_fits : meta.backup_version ≤ Decimal.max_i64

module _ ⦃sys : System⦄ (ascii : (c : ℕ) → c < 128 → sys.unicode_digit c ≡ Decimal.is_digit c) where
  -- A backup is not outdated by itself.
  should_delete-own :
      (meta : BackupMetadata) → IsNamed meta → should_delete (backup_file_name meta) meta ≡ false
  unfolding should_delete backup_file_name
  should_delete-own meta v =
      let parsed : FileName.from_str sys.unicode_digit (backup_file_name meta)
          ≡ ok (record {
            timestamp = pos v.seconds;
            os = meta.operating_system;
            device_id = meta.device_id;
            backup_version = meta.backup_version;
          }) =
        rw v.time (
          from_str-get_backup_file_name sys.unicode_digit ascii meta.backup_scheme
            meta.operating_system meta.device_id v.seconds meta.backup_version v.system v.device
            v.time_fits v.version_fits) in
      rw (parsed, should_delete) (ground arith)

module _ ⦃sys : System⦄ (arch : IsArchiving sys) where
  remove_loop-copy :
      (current : BackupMetadata) (names : List Text) (other : Text) (w : World)
      → should_delete other current ≡ false
      → sys.storage.copy_from_storage other (remove_loop current names w).storage
        ≡ sys.storage.copy_from_storage other w.storage
  unfolding remove_loop delete_backup
  remove_loop-copy current [] other w keep = refl
  remove_loop-copy current (name ∷ names) other w keep =
      elim (Bool-cases (should_delete name current)) [
        | inl hit ↦
            let differ : other ≢ name = λ p. cc (p, hit, keep) in
            rw (hit, remove_loop)
              (remove_loop-copy current names other (delete_backup name w).1 keep
                ∙ arch.copy_from-delete_backup name other w.storage differ)
        | inr miss ↦ rw (miss, remove_loop) (remove_loop-copy current names other w keep)
      ]

module _ ⦃sys : System⦄ (aead : IsAead sys.crypto) (arch : IsArchiving sys) where
  -- When `create_backup` succeeds, and the names and numbers of the metadata fit into a file name,
  -- the backup is in the storage also after the outdated ones were removed: with its metadata, and
  -- decrypting under the backup key of the keychain to a database of its version.
  pub create_backup-IsStored :
      ((c : ℕ) → c < 128 → sys.unicode_digit c ≡ Decimal.is_digit c)
      → (device : Device) (w w' : World) (meta : BackupMetadata) → IsNamed meta
      → create_backup device w ≡ (ok meta, w')
      → (dek : DataEncryptionKey) × ((db_backup_dek w).0 ≡ ok dek) × IsStored dek meta w'
  unfolding create_backup remove_outdated_backups
  create_backup-IsStored ascii device w w' meta named h =
      let v : World = (db_backup device w).1 in
      elim (Bool-cases (sys.storage.can_backup w.storage)) [
        | inr off ↦ absurd (ground arith)
        | inl on ↦ elim (Result-cases (db_backup device w).0) [
          | inl (_, p) ↦ absurd (ground arith)
          | inr (m, p) ↦
              let same : m ≡ meta = ground arith in
              let end : remove_loop m (sys.storage.list_backup_file_names v.storage) v ≡ w' =
                ground arith in
              let run : db_backup device w ≡ (ok meta, v) = λ i. ((p ∙ ap ok same) i, v) in
              let (dek, key, stored) = db_backup-IsStored aead arch device w v meta run in
              let keep : should_delete (backup_file_name meta) m ≡ false =
                subst (λ n. should_delete (backup_file_name meta) n ≡ false) (sym same)
                  (should_delete-own ascii meta named) in
              (
                dek,
                key,
                IsStored-file dek meta v w'
                    (ap (λ u. sys.storage.copy_from_storage (backup_file_name meta) u.storage)
                        (sym end)
                      ∙ remove_loop-copy arch m _ (backup_file_name meta) v keep)
                    stored,
              )
        ]
      ]
