-- ===== src/Backup/Setup/Upserts.antt =====
-- What the upserts of a setup leave in the keychain.
use sealvault.Prelude.{◌≡◌, Text, false, inl, inr, arith}
use sealvault.Prelude.Result.{ok, Result-cases}
use sealvault.Encryption.KeyName.{KeyName, key_eq}
use sealvault.Encryption.KeyMaterial.{IsKeyMaterial, from_slice-eq-ok}
use sealvault.Encryption.Keychain.{IsLawful}
use sealvault.Encryption.Keys.{
  DataEncryptionKey, KeyEncryptionKey, key_bytes, upsert_dek, upsert_kek, db_backup_dek,
}
use sealvault.Encryption.BackupKeys.{
  setup_kdf_secret, setup_password, random_nonce, random_password, kdf_secret_from_keychain,
  password_from_keychain,
}
use sealvault.System.{System, World}

module _ ⦃sys : System⦄ where
  -- What is read back is what was saved last.
  pub setup_kdf_secret-read :
      (device secret : Text) (w : World)
      → (setup_kdf_secret device w).0 ≡ ok secret
      → (kdf_secret_from_keychain device (setup_kdf_secret device w).1).0 ≡ ok secret
  unfolding setup_kdf_secret
  setup_kdf_secret-read device secret w h = ground arith

  pub setup_password-read :
      (password : Text) (w : World)
      → (setup_password w).0 ≡ ok password
      → (password_from_keychain (setup_password w).1).0 ≡ ok password
  unfolding setup_password random_password
  setup_password-read password w h = ground arith

  pub random_nonce-keychain : (w : World) → (random_nonce w).1.keychain ≡ w.keychain
  unfolding random_nonce
  random_nonce-keychain w = ground arith

  pub random_password-keychain : (w : World) → (random_password w).1.keychain ≡ w.keychain
  unfolding random_password
  random_password-keychain w = ground arith

module _ ⦃sys : System⦄ (law : IsLawful sys.keychain) where
  pub upsert_dek-read :
      (dek : DataEncryptionKey) (w : World)
      → dek.name ≡ KeyName.db_backup_data_encryption_key
      → IsKeyMaterial key_bytes dek.key_material
      → (upsert_dek dek w).0 ≡ ok tt
      → (db_backup_dek (upsert_dek dek w).1).0 ≡ ok dek
  unfolding upsert_dek db_backup_dek key_eq
  upsert_dek-read dek w name valid h =
      let done = sys.keychain.upsert_local dek.name dek.key_material w.keychain in
      elim (Result-cases done.0) [
        | inl (_, p) ↦ absurd (ground arith)
        | inr (_, p) ↦ ground (
          arith,
          law.get_local-upsert_local dek.name KeyName.db_backup_data_encryption_key dek.key_material
              key_bytes w.keychain done.1 (λ i. (p i, done.1)),
          from_slice-eq-ok key_bytes dek.key_material valid,
        )
      ]

  -- The keys of the password and the secret outlive the upserts of the derived keys.
  pub upsert_dek-others :
      (dek : DataEncryptionKey) (device : Text) (w : World)
      → key_eq dek.name KeyName.backup_password ≡ false
      → (upsert_dek dek w).0 ≡ ok tt
      → ((password_from_keychain (upsert_dek dek w).1).0 ≡ (password_from_keychain w).0)
        × ((kdf_secret_from_keychain device (upsert_dek dek w).1).0
            ≡ (kdf_secret_from_keychain device w).0)
  unfolding upsert_dek password_from_keychain kdf_secret_from_keychain
  upsert_dek-others dek device w other h =
      let done = sys.keychain.upsert_local dek.name dek.key_material w.keychain in
      elim (Result-cases done.0) [
        | inl (_, p) ↦ absurd (ground arith)
        | inr (_, p) ↦
            let e =
              law.get_local-upsert_local dek.name KeyName.backup_password dek.key_material 20
                w.keychain done.1 (λ i. (p i, done.1)) in
            let f =
              law.get_synced-upsert_local dek.name KeyName.kdf_secret dek.key_material device
                key_bytes w.keychain done.1 (λ i. (p i, done.1)) in
            (ground arith, ground arith)
      ]

  pub upsert_kek-others :
      (kek : KeyEncryptionKey) (device : Text) (w : World)
      → key_eq kek.name KeyName.backup_password ≡ false
      → key_eq kek.name KeyName.db_backup_data_encryption_key ≡ false
      → (upsert_kek kek w).0 ≡ ok tt
      → ((password_from_keychain (upsert_kek kek w).1).0 ≡ (password_from_keychain w).0)
        × ((kdf_secret_from_keychain device (upsert_kek kek w).1).0
            ≡ (kdf_secret_from_keychain device w).0)
        × ((db_backup_dek (upsert_kek kek w).1).0 ≡ (db_backup_dek w).0)
  unfolding upsert_kek password_from_keychain kdf_secret_from_keychain db_backup_dek
  upsert_kek-others kek device w other other' h =
      let done = sys.keychain.upsert_local kek.name kek.key_material w.keychain in
      elim (Result-cases done.0) [
        | inl (_, p) ↦ absurd (ground arith)
        | inr (_, p) ↦
            let e =
              law.get_local-upsert_local kek.name KeyName.backup_password kek.key_material 20
                w.keychain done.1 (λ i. (p i, done.1)) in
            let f =
              law.get_synced-upsert_local kek.name KeyName.kdf_secret kek.key_material device
                key_bytes w.keychain done.1 (λ i. (p i, done.1)) in
            let g =
              law.get_local-upsert_local kek.name KeyName.db_backup_data_encryption_key
                kek.key_material key_bytes w.keychain done.1 (λ i. (p i, done.1)) in
            (ground arith, ground arith, ground arith)
      ]

  pub setup_password-others :
      (device password : Text) (w : World)
      → (setup_password w).0 ≡ ok password
      → (kdf_secret_from_keychain device (setup_password w).1).0
        ≡ (kdf_secret_from_keychain device w).0
  unfolding setup_password kdf_secret_from_keychain
  setup_password-others device password w h =
      let u : World = (random_password w).1 in
      elim (Result-cases (random_password w).0) [
        | inl (_, q) ↦ absurd (ground arith)
        | inr (fresh, q) ↦
            let same : u.keychain ≡ w.keychain = random_password-keychain w in
            let done = sys.keychain.upsert_local KeyName.backup_password fresh u.keychain in
            elim (Result-cases done.0) [
              | inl (_, p) ↦ absurd (ground arith)
              | inr (_, p) ↦
                  let f =
                    law.get_synced-upsert_local KeyName.backup_password KeyName.kdf_secret fresh
                      device key_bytes u.keychain done.1 (λ i. (p i, done.1)) in
                  ground arith
            ]
      ]
