-- ===== src/Backup/Restore/RoundTrip.antt =====
-- A backup that is made can be opened again with the keys it was made with.
use sealvault.Prelude.{ℕ, ◌≡◌, ◌≤◌, ◌∙◌, sym, ap, Text, length, none, some, inl, inr, subst, arith}
use sealvault.Prelude.Result.{ok, Result-cases}
use sealvault.Encryption.EncryptionOutput.{EncryptionOutput}
use sealvault.Encryption.Keys.{DataEncryptionKey, KeyEncryptionKey, db_backup_dek}
use sealvault.Encryption.Keys.Laws.{IsAead}
use sealvault.Encryption.BackupKeys.{kdf_secret_from_keychain, nonce_from_str}
use sealvault.Db.{Db}
use sealvault.Db.Settings.{increment_backup_version, fetch_backup_version, fetch_kdf_nonce}
use sealvault.Backup.FileName.{BackupMetadata, backup_file_name}
use sealvault.Backup.Create.{
  Device, create_verified_backup, encrypt_backup, store_backup_zip, wal_checkpoint, metadata_of,
  store_verified_backup, db_backup_callback, db_backup,
}
use sealvault.Backup.Restore.{derive_backup_keys, decrypt_backup, extract_backup, open_archive}
use sealvault.Backup.Latest.{backup_metadata_from_zip}
use sealvault.System.{System, World, transaction}
use sealvault.System.Laws.{transaction_of_ok}
use sealvault.Backup.Restore.Archive.{
  IsArchiving, db_backup_dek-state, db_backup_dek-keychain, wal_checkpoint-keychain,
  create_verified_backup-ok, encrypt_backup-ok, store_backup_zip-ok,
}

module _ ⦃sys : System⦄ where
  -- The storage of `w` holds the backup of `meta`: a file of its name, with its metadata, that
  -- decrypts under `dek` to the bytes of a database of its version.
  pub record IsStored (dek : DataEncryptionKey) (meta : BackupMetadata) (w : World) : Type 0 where
    pub archive : Text
    pub at : sys.storage.copy_from_storage (backup_file_name meta) w.storage ≡ some archive
    pub json : Text
    pub unzip : sys.unzip_metadata archive ≡ ok json
    pub read_metadata : sys.metadata_from_slice json ≡ ok meta
    pub output : EncryptionOutput
    pub extract : extract_backup archive ≡ ok output
    pub contents : Text
    pub decrypt : decrypt_backup dek output meta ≡ ok contents
    pub db : Db sys.Tables
    pub read_db : sys.db_from_bytes contents ≡ ok db
    pub version : fetch_backup_version db ≡ ok meta.backup_version

  -- What is stored depends on the one file alone.
  pub IsStored-file :
      (dek : DataEncryptionKey) (meta : BackupMetadata) (w v : World)
      → sys.storage.copy_from_storage (backup_file_name meta) v.storage
        ≡ sys.storage.copy_from_storage (backup_file_name meta) w.storage
      → IsStored dek meta w
      → IsStored dek meta v
  IsStored-file dek meta w v same s = record {
    archive = s.archive;
    at = same ∙ s.at;
    json = s.json;
    unzip = s.unzip;
    read_metadata = s.read_metadata;
    output = s.output;
    extract = s.extract;
    contents = s.contents;
    decrypt = s.decrypt;
    db = s.db;
    read_db = s.read_db;
    version = s.version;
  }

module _ ⦃sys : System⦄ (aead : IsAead sys.crypto) (arch : IsArchiving sys) where
  store_verified_backup-IsStored :
      (device : Device) (version : ℕ) (nonce : Text) (dek : DataEncryptionKey) (contents : Text)
      (d : Db sys.Tables) (w : World) (meta : BackupMetadata)
      → 1 ≤ length contents
      → sys.db_from_bytes contents ≡ ok d
      → fetch_backup_version d ≡ ok version
      → (store_verified_backup device version nonce dek contents w).0 ≡ ok meta
      → IsStored dek meta (store_verified_backup device version nonce dek contents w).1
  unfolding store_verified_backup
  store_verified_backup-IsStored device version nonce dek contents d w meta long read fine h =
      let m : BackupMetadata = metadata_of device version nonce (sys.os.unix_timestamp w.os).0 in
      let v : World = record w { os = (sys.os.unix_timestamp w.os).1 } in
      let u : World = (encrypt_backup dek contents m v).1 in
      elim (Result-cases (encrypt_backup dek contents m v).0) [
        | inl (_, p) ↦ absurd (ground arith)
        | inr (o, p) ↦ elim (Result-cases (store_backup_zip m o u).0) [
          | inl (_, q) ↦ absurd (ground arith)
          | inr (_, q) ↦
              let (opens, valid) = encrypt_backup-ok aead arch dek contents m v o long p in
              let (archive, at, extract, json, unzip, meta_ok) =
                store_backup_zip-ok aead arch m o u valid q in
              let same : m ≡ meta = ground arith in
              subst
                (λ m'.
                  IsStored dek m' (store_verified_backup device version nonce dek contents w).1)
                same
                (record {
                  archive = archive;
                  at = rw (p, q, store_verified_backup) at;
                  json = json;
                  unzip = unzip;
                  read_metadata = meta_ok;
                  output = o;
                  extract = extract;
                  contents = contents;
                  decrypt = opens;
                  db = d;
                  read_db = read;
                  version = fine;
                })
        ]
      ]

  db_backup_callback-IsStored :
      (device : Device) (w : World) (meta : BackupMetadata)
      → (db_backup_callback device w).0 ≡ ok meta
      → (dek : DataEncryptionKey) × ((db_backup_dek w).0 ≡ ok dek)
        × IsStored dek meta (db_backup_callback device w).1
  unfolding db_backup_callback
  db_backup_callback-IsStored device w meta h = elim (Result-cases (fetch_backup_version w.db)) [
    | inl (_, p) ↦ absurd (ground arith)
    | inr (version, p) ↦ elim (Result-cases (fetch_kdf_nonce w.db)) [
      | inl (_, q) ↦ absurd (ground arith)
      | inr (none, q) ↦ absurd (ground arith)
      | inr (some nonce, q) ↦ elim (Result-cases (db_backup_dek w).0) [
        | inl (_, r) ↦ absurd (ground (arith, db_backup_dek-state w))
        | inr (dek, r) ↦ elim (Result-cases (create_verified_backup version w).0) [
          | inl (_, s) ↦ absurd (ground (arith, db_backup_dek-state w))
          | inr (contents, s) ↦
              let (bytes, d, read, fine) = create_verified_backup-ok version w contents s in
              let long : 1 ≤ length contents = rw bytes (arch.length-db_to_bytes w.db_file) in
              let v : World = (create_verified_backup version w).1 in
              let end : (store_verified_backup device version nonce dek contents v).0 ≡ ok meta =
                ground (arith, db_backup_dek-state w) in
              let same : (db_backup_callback device w).1
                  ≡ (store_verified_backup device version nonce dek contents v).1 =
                ground (arith, db_backup_dek-state w) in
              (
                dek,
                r,
                subst (IsStored dek meta) (sym same) (
                    store_verified_backup-IsStored device version nonce dek contents d v meta long
                      read fine end),
              )
        ]
      ]
    ]
  ]

  -- A backup that `db_backup` reports is in the storage, with its metadata, and decrypts under the
  -- backup key of the keychain to the bytes of a database of the version that the metadata names.
  pub db_backup-IsStored :
      (device : Device) (w w' : World) (meta : BackupMetadata)
      → db_backup device w ≡ (ok meta, w')
      → (dek : DataEncryptionKey) × ((db_backup_dek w).0 ≡ ok dek) × IsStored dek meta w'
  unfolding db_backup
  db_backup-IsStored device w w' meta h =
      let v : World = record w {
        db = increment_backup_version w.db;
        os = (sys.os.connect w.os).1;
      } in
      let u : World = (wal_checkpoint v).1 in
      let t : World = record u { os = (sys.os.connect u.os).1 } in
      elim (Result-cases (sys.os.connect w.os).0) [
        | inl (_, p) ↦ absurd (ground arith)
        | inr (_, p) ↦ elim (Result-cases (wal_checkpoint v).0) [
          | inl (_, q) ↦ absurd (ground arith)
          | inr (_, q) ↦
              let run : transaction (db_backup_callback device) u ≡ (ok meta, w') = ground arith in
              let (done, _, _, _, kept) =
                transaction_of_ok (db_backup_callback device) u w' meta run in
              let (dek, key, stored) = db_backup_callback-IsStored device t meta done in
              (
                dek,
                db_backup_dek-keychain w t (sym (wal_checkpoint-keychain v)) ∙ key,
                IsStored-file dek meta _ w'
                    (ap (λ t. sys.storage.copy_from_storage (backup_file_name meta) t) kept) stored,
              )
        ]
      ]

  -- A backup that `db_backup` reports is opened by a restore that derives the same key: with a password, secret and
  -- nonce from which the backup key of the keychain is derived, the file that `db_backup` stored
  -- opens to its metadata and the bytes of a database of the version in the metadata.
  pub open_archive-db_backup :
      (device : Device) (w w' : World) (meta : BackupMetadata)
      → db_backup device w ≡ (ok meta, w')
      → (password secret nonce : Text) (dek : DataEncryptionKey) (kek : KeyEncryptionKey)
        (v : World)
      → (db_backup_dek w).0 ≡ ok dek
      → v.storage ≡ w'.storage
      → (kdf_secret_from_keychain meta.device_id v).0 ≡ ok secret
      → nonce_from_str meta.kdf_nonce ≡ ok nonce
      → derive_backup_keys password secret nonce ≡ ok (dek, kek)
      → (archive contents : Text) × (d : Db sys.Tables) × (sys.storage.copy_from_storage
            (backup_file_name meta)
            v.storage
          ≡ some archive)
        × (open_archive password archive v
            ≡ (ok (record { metadata = meta; sk_backup_kek = kek; contents = contents }), v))
        × (sys.db_from_bytes contents ≡ ok d)
        × (fetch_backup_version d ≡ ok meta.backup_version)
  unfolding open_archive kdf_secret_from_keychain backup_metadata_from_zip
  open_archive-db_backup device w w' meta h password secret nonce dek kek v key same sec non keys =
      let (dek', key', s) = db_backup-IsStored device w w' meta h in
      let one : dek' ≡ dek = ground arith in
      let opens : decrypt_backup dek s.output meta ≡ ok s.contents =
        ap (λ k. decrypt_backup k s.output meta) (sym one) ∙ s.decrypt in
      (
        s.archive,
        s.contents,
        s.db,
        ap (λ t. sys.storage.copy_from_storage (backup_file_name meta) t) same ∙ s.at,
        ground (arith, s.unzip, s.read_metadata, s.extract),
        s.read_db,
        s.version,
      )
