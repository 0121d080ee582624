-- ===== src/Backup/Setup/KeysFrame.antt =====
-- Setting up the keys of the backup leaves the settings.
use sealvault.Prelude.{Text, ◌≡◌, inl, inr, arith}
use sealvault.Prelude.Result.{Result-cases}
use sealvault.Encryption.KeyName.{KeyName}
use sealvault.Encryption.EncryptionOutput.{EncryptionOutput}
use sealvault.Encryption.Keys.{
  KeyEncryptionKey, DataEncryptionKey, upsert_dek, upsert_kek, to_encrypted, kek_from_keychain,
}
use sealvault.Encryption.BackupKeys.{
  setup_kdf_secret, setup_password, random_nonce, random_password,
}
use sealvault.Db.Deks.{set_encrypted_dek, insert_led}
use sealvault.Backup.Setup.{
  fetch_dek, store_encrypted_dek, set_up_derived_keys, wrap_sk_dek, setup_or_rotate_keys_for_backup,
}
use sealvault.System.{System, World, write}

module _ ⦃sys : System⦄ where
  setup_kdf_secret-db : (device : Text) (w : World) → (setup_kdf_secret device w).1.db ≡ w.db
  unfolding setup_kdf_secret
  setup_kdf_secret-db device w = ground arith

  random_password-db : (w : World) → (random_password w).1.db ≡ w.db
  unfolding random_password
  random_password-db w = ground arith

  setup_password-db : (w : World) → (setup_password w).1.db ≡ w.db
  unfolding setup_password
  setup_password-db w = ground (arith, random_password-db w)

  random_nonce-db : (w : World) → (random_nonce w).1.db ≡ w.db
  unfolding random_nonce
  random_nonce-db w = ground arith

  to_encrypted-db :
      (dek : DataEncryptionKey) (kek : KeyEncryptionKey) (w : World)
      → (to_encrypted dek kek w).1.db ≡ w.db
  unfolding to_encrypted
  to_encrypted-db dek kek w = ground arith

  store_encrypted_dek-settings :
      (id : Text) (kek : KeyEncryptionKey) (o : EncryptionOutput) (w : World)
      → (store_encrypted_dek id kek o w).1.db.local_settings ≡ w.db.local_settings
  unfolding store_encrypted_dek set_encrypted_dek insert_led write
  store_encrypted_dek-settings id kek o w = ground arith

  set_up_derived_keys-db : (device : Text) (w : World) → (set_up_derived_keys device w).1.db ≡ w.db
  unfolding set_up_derived_keys upsert_dek upsert_kek
  set_up_derived_keys-db device w =
      let w1 : World = (setup_kdf_secret device w).1 in
      let w2 : World = (setup_password w1).1 in
      ground (arith, setup_kdf_secret-db device w, setup_password-db w1, random_nonce-db w2)

  fetch_dek-state :
      (name : KeyName) (kek : KeyEncryptionKey) (w : World) → (fetch_dek name kek w).1 ≡ w
  unfolding fetch_dek
  fetch_dek-state name kek w = ground arith

  kek_from_keychain-state : (name : KeyName) (w : World) → (kek_from_keychain name w).1 ≡ w
  unfolding kek_from_keychain
  kek_from_keychain-state name w = ground arith

  wrap_sk_dek-settings : (w : World) → (wrap_sk_dek w).1.db.local_settings ≡ w.db.local_settings
  unfolding wrap_sk_dek kek_from_keychain
  wrap_sk_dek-settings w =
      elim (Result-cases (kek_from_keychain KeyName.sk_backup_key_encryption_key w).0) [
        | inl (_, p) ↦ ground arith
        | inr (backup_kek, p) ↦
            elim (Result-cases (kek_from_keychain KeyName.sk_key_encryption_key w).0) [
              | inl (_, q) ↦ ground arith
              | inr (sk_kek, q) ↦
                  let s : (fetch_dek KeyName.sk_data_encryption_key sk_kek w).1 ≡ w =
                    fetch_dek-state KeyName.sk_data_encryption_key sk_kek w in
                  elim (Result-cases (fetch_dek KeyName.sk_data_encryption_key sk_kek w).0) [
                    | inl (_, r) ↦ ground arith
                    | inr ((id, dek), r) ↦
                        let v : World = (to_encrypted dek backup_kek w).1 in
                        let t : v.db ≡ w.db = to_encrypted-db dek backup_kek w in
                        elim (Result-cases (to_encrypted dek backup_kek w).0) [
                          | inl (_, u) ↦ ground arith
                          | inr (o, u) ↦
                              ground (arith, store_encrypted_dek-settings id backup_kek o v)
                        ]
                  ]
            ]
      ]

  pub setup_or_rotate_keys_for_backup-settings :
      (device : Text) (w : World)
      → (setup_or_rotate_keys_for_backup device w).1.db.local_settings ≡ w.db.local_settings
  unfolding setup_or_rotate_keys_for_backup
  setup_or_rotate_keys_for_backup-settings device w = ground (
    arith,
    set_up_derived_keys-db device w,
    wrap_sk_dek-settings (set_up_derived_keys device w).1,
  )

  to_encrypted-keychain :
      (dek : DataEncryptionKey) (kek : KeyEncryptionKey) (w : World)
      → (to_encrypted dek kek w).1.keychain ≡ w.keychain
  unfolding to_encrypted
  to_encrypted-keychain dek kek w = ground arith

  store_encrypted_dek-keychain :
      (id : Text) (kek : KeyEncryptionKey) (o : EncryptionOutput) (w : World)
      → (store_encrypted_dek id kek o w).1.keychain ≡ w.keychain
  unfolding store_encrypted_dek set_encrypted_dek insert_led write
  store_encrypted_dek-keychain id kek o w = ground arith

  pub wrap_sk_dek-keychain : (w : World) → (wrap_sk_dek w).1.keychain ≡ w.keychain
  unfolding wrap_sk_dek kek_from_keychain
  wrap_sk_dek-keychain w =
      elim (Result-cases (kek_from_keychain KeyName.sk_backup_key_encryption_key w).0) [
        | inl (_, p) ↦ ground arith
        | inr (backup_kek, p) ↦
            elim (Result-cases (kek_from_keychain KeyName.sk_key_encryption_key w).0) [
              | inl (_, q) ↦ ground arith
              | inr (sk_kek, q) ↦
                  let s : (fetch_dek KeyName.sk_data_encryption_key sk_kek w).1 ≡ w =
                    fetch_dek-state KeyName.sk_data_encryption_key sk_kek w in
                  elim (Result-cases (fetch_dek KeyName.sk_data_encryption_key sk_kek w).0) [
                    | inl (_, r) ↦ ground arith
                    | inr ((id, dek), r) ↦
                        let v : World = (to_encrypted dek backup_kek w).1 in
                        let t : v.keychain ≡ w.keychain = to_encrypted-keychain dek backup_kek w in
                        elim (Result-cases (to_encrypted dek backup_kek w).0) [
                          | inl (_, u) ↦ ground arith
                          | inr (o, u) ↦
                              ground (arith, store_encrypted_dek-keychain id backup_kek o v)
                        ]
                  ]
            ]
      ]
