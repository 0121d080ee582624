-- ===== src/Backup/Restore/Archive.antt =====
-- The steps of a backup: what each leaves, and what the code around the program is relied on for.
use sealvault.Prelude.{ℕ, ◌+◌, ◌≡◌, ◌≢◌, ◌≤◌, Text, length, true, some, inl, inr, Bool-cases, arith}
use sealvault.Prelude.Result.{ok, Result-cases}
use sealvault.Encryption.EncryptionOutput
use sealvault.Encryption.EncryptionOutput.{EncryptionOutput, IsOutput, try_from-to_vec}
use sealvault.Encryption.Keys.{DataEncryptionKey, encrypt, db_backup_dek}
use sealvault.Encryption.Keys.Laws.{IsAead}
use sealvault.Encryption.Keys.Laws
use sealvault.Db.{Db}
use sealvault.Db.Settings.{fetch_backup_version}
use sealvault.Backup.FileName.{BackupMetadata, backup_file_name}
use sealvault.Backup.Create.{
  verify_backup, create_verified_backup, encrypt_backup, copy_to_storage, store_backup_zip,
  wal_checkpoint,
}
use sealvault.Backup.Restore.{decrypt_backup, extract_backup}
use sealvault.System.{System, World}

-- What the code relies on: of the archive and its metadata that reading gives back what was
-- written, of the storage that a copy that succeeds
-- can be fetched and that a deletion leaves other files, of random bytes and of a
-- ciphertext their lengths, and of a database that its file is not empty.
pub record IsArchiving (sys : System) : Type 0 where
  pub unzip_backup-zip :
      (backup meta archive : Text)
      → sys.zip backup meta ≡ ok archive
      → sys.unzip_backup archive ≡ ok backup
  pub unzip_metadata-zip :
      (backup meta archive : Text)
      → sys.zip backup meta ≡ ok archive
      → sys.unzip_metadata archive ≡ ok meta
  pub metadata_from_slice-canonical_json :
      (meta : BackupMetadata) (json : Text)
      → sys.canonical_json meta ≡ ok json
      → sys.metadata_from_slice json ≡ ok meta
  pub copy_from-copy_to :
      (name contents : Text) (s t : sys.storage.State)
      → sys.storage.copy_to_storage name contents s ≡ (true, t)
      → sys.storage.copy_from_storage name t ≡ some contents
  pub copy_from-delete_backup :
      (name other : Text) (s : sys.storage.State)
      → other ≢ name
      → sys.storage.copy_from_storage other (sys.storage.delete_backup name s).1
        ≡ sys.storage.copy_from_storage other s
  pub length-random_bytes :
      (n : ℕ) (o o' : sys.os.State) (bytes : Text)
      → sys.os.random_bytes n o ≡ (ok bytes, o')
      → length bytes ≡ n
  pub length-aead_encrypt :
      (key nonce msg aad cipher : Text)
      → sys.crypto.aead_encrypt key nonce msg aad ≡ ok cipher
      → length cipher ≡ length msg + 16
  pub length-db_to_bytes : (d : Db sys.Tables) → 1 ≤ length (sys.db_to_bytes d)

module _ ⦃sys : System⦄ where
  pub db_backup_dek-state : (w : World) → (db_backup_dek w).1 ≡ w
  unfolding db_backup_dek
  db_backup_dek-state w = ground arith

  pub db_backup_dek-keychain :
      (w v : World) → w.keychain ≡ v.keychain → (db_backup_dek w).0 ≡ (db_backup_dek v).0
  unfolding db_backup_dek
  db_backup_dek-keychain w v same = ground arith

  pub wal_checkpoint-keychain : (w : World) → (wal_checkpoint w).1.keychain ≡ w.keychain
  unfolding wal_checkpoint
  wal_checkpoint-keychain w = ground arith

  pub create_verified_backup-ok :
      (version : ℕ) (w : World) (contents : Text)
      → (create_verified_backup version w).0 ≡ ok contents
      → (contents ≡ sys.db_to_bytes w.db_file)
        × (d : Db sys.Tables) × (sys.db_from_bytes contents ≡ ok d)
        × (fetch_backup_version d ≡ ok version)
  unfolding create_verified_backup verify_backup
  create_verified_backup-ok version w contents h =
      let bytes : Text = sys.db_to_bytes w.db_file in
      elim (Result-cases (sys.db_from_bytes bytes)) [
        | inl (_, p) ↦ absurd (ground arith)
        | inr (d, p) ↦ (ground arith, d, ground arith, ground arith)
      ]

module _ ⦃sys : System⦄ (aead : IsAead sys.crypto) (arch : IsArchiving sys) where
  pub encrypt-IsOutput :
      (msg aad key : Text) (w : World) (o : EncryptionOutput)
      → 1 ≤ length msg
      → (encrypt msg aad key w).0 ≡ ok o
      → IsOutput o
  unfolding encrypt
  encrypt-IsOutput msg aad key w o long h = elim (Result-cases (sys.os.random_bytes 24 w.os).0) [
    | inl (_, p) ↦ absurd (ground arith)
    | inr (nonce, p) ↦ elim (Result-cases (sys.crypto.aead_encrypt key nonce msg aad)) [
      | inl (_, q) ↦ absurd (ground arith)
      | inr (cipher, q) ↦
          let n : length nonce ≡ 24 =
            arch.length-random_bytes 24 w.os _ nonce
              (λ i. (p i, (sys.os.random_bytes 24 w.os).1)) in
          let c : length cipher ≡ length msg + 16 =
            arch.length-aead_encrypt key nonce msg aad cipher q in
          let same : record { cipher_text = cipher; nonce = nonce } ≡ o = ground arith in
          record { nonce_len = ground arith; cipher_len = ground arith }
    ]
  ]

  pub encrypt_backup-ok :
      (dek : DataEncryptionKey) (contents : Text) (meta : BackupMetadata) (w : World)
      (o : EncryptionOutput)
      → 1 ≤ length contents
      → (encrypt_backup dek contents meta w).0 ≡ ok o
      → (decrypt_backup dek o meta ≡ ok contents) × IsOutput o
  unfolding encrypt_backup decrypt_backup
  encrypt_backup-ok dek contents meta w o long h = elim (Result-cases (sys.canonical_json meta)) [
    | inl (_, p) ↦ absurd (ground arith)
    | inr (json, p) ↦
        let run : (encrypt contents json dek.key_material w).0 ≡ ok o = ground arith in
        let v : World = (encrypt contents json dek.key_material w).1 in
        (
          rw (p, decrypt_backup)
              (Laws.decrypt-encrypt aead contents json dek.key_material w v o (λ i. (run i, v))),
          encrypt-IsOutput contents json dek.key_material w o long run,
        )
  ]

  pub store_backup_zip-ok :
      (meta : BackupMetadata) (o : EncryptionOutput) (w : World)
      → IsOutput o
      → (store_backup_zip meta o w).0 ≡ ok tt
      → (archive : Text) × (sys.storage.copy_from_storage
            (backup_file_name meta)
            (store_backup_zip meta o w).1.storage
          ≡ some archive)
        × (extract_backup archive ≡ ok o)
        × (json : Text) × (sys.unzip_metadata archive ≡ ok json)
        × (sys.metadata_from_slice json ≡ ok meta)
  unfolding store_backup_zip copy_to_storage extract_backup
  store_backup_zip-ok meta o w v h =
      let u : World = record w { os = (sys.os.file_access w.os).1 } in
      let name : Text = backup_file_name meta in
      elim (Result-cases (sys.os.file_access w.os).0) [
        | inl (_, p) ↦ absurd (ground arith)
        | inr (_, p) ↦ elim (Result-cases (sys.canonical_json meta)) [
          | inl (_, q) ↦ absurd (ground arith)
          | inr (json, q) ↦ elim (Result-cases (sys.zip (EncryptionOutput.to_vec o) json)) [
            | inl (_, r) ↦ absurd (ground arith)
            | inr (archive, r) ↦
                elim (Bool-cases (sys.storage.copy_to_storage name archive w.storage).0) [
                  | inr bad ↦ absurd (ground arith)
                  | inl good ↦
                      let t : sys.storage.State =
                        (sys.storage.copy_to_storage name archive w.storage).1 in
                      let at : sys.storage.copy_from_storage name t ≡ some archive =
                        arch.copy_from-copy_to name archive w.storage t (λ i. (good i, t)) in
                      (
                        archive,
                        rw (p, q, r, store_backup_zip) (ground arith),
                        rw (arch.unzip_backup-zip _ json archive r, extract_backup)
                            (try_from-to_vec o v),
                        json,
                        arch.unzip_metadata-zip _ json archive r,
                        arch.metadata_from_slice-canonical_json meta json q,
                      )
                ]
          ]
        ]
      ]
