-- ===== src/Backup/Setup/Derived.antt =====
-- The keys that a setup leaves in the keychain belong together.
use sealvault.Prelude.{◌≡◌, ◌∙◌, refl, sym, ap, subst, Text, true, inl, inr, arith}
use sealvault.Prelude.Result.{ok, Result-cases}
use sealvault.Encryption.KeyName.{KeyName, key_eq}
use sealvault.Encryption.KeyMaterial.{IsKeyMaterial, from_slice, from_slice-IsKeyMaterial}
use sealvault.Encryption.Keychain.{IsLawful}
use sealvault.Encryption.Keys.{
  DataEncryptionKey, KeyEncryptionKey, key_bytes, upsert_dek, upsert_kek, db_backup_dek,
}
use sealvault.Encryption.BackupKeys.{
  setup_kdf_secret, setup_password, random_nonce, derive_root, derive_db_backup_dek,
  db_backup_dek_context, derive_sk_backup_kek, kdf_secret_from_keychain, password_from_keychain,
}
use sealvault.Prelude.{some}
use sealvault.Db.{LocalSettings}
use sealvault.Db.Settings.{
  set_backup_kdf_nonce, update_backup_password_timestamp, set_backup_enabled,
}
use sealvault.Backup.Create.{Device}
use sealvault.Backup.Setup.{
  set_up_derived_keys, wrap_sk_dek, setup_or_rotate_keys_for_backup, enable_backups_in_db,
  set_up_and_enable, set_up_or_rotate_backup,
}
use sealvault.Backup.Setup.KeysFrame.{
  wrap_sk_dek-keychain, setup_or_rotate_keys_for_backup-settings,
}
use sealvault.Backup.Restore.Archive.{db_backup_dek-keychain}
use sealvault.System.Laws.{transaction_of_ok}
use sealvault.Backup.Restore.{derive_backup_keys}
use sealvault.System.{System, World, App, transaction}
use sealvault.Backup.Setup.Upserts.{
  setup_kdf_secret-read, setup_password-read, random_nonce-keychain, upsert_dek-read,
  upsert_dek-others, upsert_kek-others, setup_password-others,
}

module _ ⦃sys : System⦄ (law : IsLawful sys.keychain) where
  -- The keychain of `w` has a secret and a password, and its backup key is the one that is derived
  -- from them with the nonce.
  pub record IsDerived (device nonce : Text) (w : World) : Type 0 where
    pub secret : Text
    pub password : Text
    pub dek : DataEncryptionKey
    pub kek : KeyEncryptionKey
    pub secret_read : (kdf_secret_from_keychain device w).0 ≡ ok secret
    pub password_read : (password_from_keychain w).0 ≡ ok password
    pub derived : derive_backup_keys password secret nonce ≡ ok (dek, kek)
    pub dek_read : (db_backup_dek w).0 ≡ ok dek

  derive_db_backup_dek-ok :
      (root : Text) (dek : DataEncryptionKey)
      → derive_db_backup_dek root ≡ ok dek
      → (dek.name ≡ KeyName.db_backup_data_encryption_key)
        × IsKeyMaterial key_bytes dek.key_material
  unfolding derive_db_backup_dek
  derive_db_backup_dek-ok root dek h =
      let bytes : Text = sys.crypto.blake3_derive_key db_backup_dek_context root in
      elim (Result-cases (from_slice key_bytes bytes)) [
        | inl (_, p) ↦ absurd (ground arith)
        | inr (k, p) ↦
            let (valid, _) = from_slice-IsKeyMaterial key_bytes bytes k p in
            let same : record { name = KeyName.db_backup_data_encryption_key; key_material = k }
                ≡ dek =
              ground arith in
            (
              sym (ap (λ d. d.name) same),
              subst (λ d. IsKeyMaterial key_bytes d.key_material) same valid,
            )
      ]

  derive_sk_backup_kek-ok :
      (root : Text) (kek : KeyEncryptionKey)
      → derive_sk_backup_kek root ≡ ok kek
      → kek.name ≡ KeyName.sk_backup_key_encryption_key
  unfolding derive_sk_backup_kek
  derive_sk_backup_kek-ok root kek h = ground arith

  kdf_secret-keychain :
      (device : Text) (w v : World)
      → w.keychain ≡ v.keychain
      → (kdf_secret_from_keychain device w).0 ≡ (kdf_secret_from_keychain device v).0
  unfolding kdf_secret_from_keychain
  kdf_secret-keychain device w v same = ground arith

  password-keychain :
      (w v : World)
      → w.keychain ≡ v.keychain
      → (password_from_keychain w).0 ≡ (password_from_keychain v).0
  unfolding password_from_keychain
  password-keychain w v same = ground arith

  -- From the state in which the secret was read, with the password and the nonce still to come.
  upserted-IsDerived :
      (device secret password nonce root : Text) (dek : DataEncryptionKey) (kek : KeyEncryptionKey)
      (w : World)
      → (kdf_secret_from_keychain device w).0 ≡ ok secret
      → (setup_password w).0 ≡ ok password
      → derive_root password secret nonce ≡ ok root
      → derive_db_backup_dek root ≡ ok dek
      → derive_sk_backup_kek root ≡ ok kek
      → let w3 = (random_nonce (setup_password w).1).1 in
        (upsert_dek dek w3).0 ≡ ok tt
        → (upsert_kek kek (upsert_dek dek w3).1).0 ≡ ok tt
        → IsDerived device nonce (upsert_kek kek (upsert_dek dek w3).1).1
  unfolding derive_backup_keys key_eq
  upserted-IsDerived device secret password nonce root dek kek w p q s t x u y =
      let w2 : World = (setup_password w).1 in
      let w3 : World = (random_nonce w2).1 in
      let w4 : World = (upsert_dek dek w3).1 in
      let quiet : w3.keychain ≡ w2.keychain = random_nonce-keychain w2 in
      let (dek_name, dek_valid) = derive_db_backup_dek-ok root dek t in
      let kek_name : kek.name ≡ KeyName.sk_backup_key_encryption_key =
        derive_sk_backup_kek-ok root kek x in
      let (d1, d2) = upsert_dek-others law dek device w3 (rw (dek_name, key_eq) refl) u in
      let (k1, k2, k3) =
        upsert_kek-others law kek device w4 (rw (kek_name, key_eq) refl)
          (rw (kek_name, key_eq) refl) y in
      record {
        secret = secret;
        password = password;
        dek = dek;
        kek = kek;
        secret_read =
            k2
            ∙ d2
            ∙ kdf_secret-keychain device w3 w2 quiet
            ∙ setup_password-others law device password w q
            ∙ p;
        password_read = k1 ∙ d1 ∙ password-keychain w3 w2 quiet ∙ setup_password-read password w q;
        derived = rw (s, t, x, derive_backup_keys) refl;
        dek_read = k3 ∙ upsert_dek-read law dek w3 dek_name dek_valid u;
      }

  set_up_derived_keys-IsDerived :
      (device nonce : Text) (w : World)
      → (set_up_derived_keys device w).0 ≡ ok nonce
      → IsDerived device nonce (set_up_derived_keys device w).1
  unfolding set_up_derived_keys
  set_up_derived_keys-IsDerived device nonce w h =
      let w1 : World = (setup_kdf_secret device w).1 in
      let w2 : World = (setup_password w1).1 in
      let w3 : World = (random_nonce w2).1 in
      elim (Result-cases (setup_kdf_secret device w).0) [
        | inl (_, p) ↦ absurd (ground arith)
        | inr (secret, p) ↦ elim (Result-cases (setup_password w1).0) [
          | inl (_, q) ↦ absurd (ground arith)
          | inr (password, q) ↦ elim (Result-cases (random_nonce w2).0) [
            | inl (_, r) ↦ absurd (ground arith)
            | inr (n, r) ↦ elim (Result-cases (derive_root password secret n)) [
              | inl (_, s) ↦ absurd (ground arith)
              | inr (root, s) ↦ elim (Result-cases (derive_db_backup_dek root)) [
                | inl (_, t) ↦ absurd (ground arith)
                | inr (dek, t) ↦
                    let w4 : World = (upsert_dek dek w3).1 in
                    elim (Result-cases (upsert_dek dek w3).0) [
                      | inl (_, u) ↦ absurd (ground arith)
                      | inr (_, u) ↦ elim (Result-cases (derive_sk_backup_kek root)) [
                        | inl (_, x) ↦ absurd (ground arith)
                        | inr (kek, x) ↦ elim (Result-cases (upsert_kek kek w4).0) [
                          | inl (_, y) ↦ absurd (ground arith)
                          | inr (_, y) ↦
                              subst (λ m. IsDerived device m (set_up_derived_keys device w).1)
                                (ground arith)
                                (subst (IsDerived device n) (sym (ground arith)) (
                                  upserted-IsDerived device secret password n root dek kek w1
                                    (setup_kdf_secret-read device secret w p) q s t x u y))
                        ]
                      ]
                    ]
              ]
            ]
          ]
        ]
      ]

  IsDerived-keychain :
      (device nonce : Text) (w v : World)
      → v.keychain ≡ w.keychain
      → IsDerived device nonce w
      → IsDerived device nonce v
  IsDerived-keychain device nonce w v same d = record {
    secret = d.secret;
    password = d.password;
    dek = d.dek;
    kek = d.kek;
    secret_read = kdf_secret-keychain device v w same ∙ d.secret_read;
    password_read = password-keychain v w same ∙ d.password_read;
    derived = d.derived;
    dek_read = db_backup_dek-keychain v w same ∙ d.dek_read;
  }

  setup_or_rotate_keys-IsDerived :
      (device nonce : Text) (w : World)
      → (setup_or_rotate_keys_for_backup device w).0 ≡ ok nonce
      → IsDerived device nonce (setup_or_rotate_keys_for_backup device w).1
  unfolding setup_or_rotate_keys_for_backup
  setup_or_rotate_keys-IsDerived device nonce w h =
      let v : World = (set_up_derived_keys device w).1 in
      elim (Result-cases (set_up_derived_keys device w).0) [
        | inl (_, p) ↦ absurd (ground arith)
        | inr (n, p) ↦ elim (Result-cases (wrap_sk_dek v).0) [
          | inl (_, q) ↦ absurd (ground arith)
          | inr (_, q) ↦
              let same : n ≡ nonce = ground arith in
              let kept : (setup_or_rotate_keys_for_backup device w).1.keychain ≡ v.keychain =
                ground (arith, wrap_sk_dek-keychain v) in
              IsDerived-keychain device nonce v _ kept (
                subst (λ m. IsDerived device m v) same (set_up_derived_keys-IsDerived device n w p))
        ]
      ]

  -- Setting up backups that succeeds leaves keys that belong together: the backup key in the
  -- keychain is the one that is derived from the password and the secret in the keychain and the
  -- nonce in the settings.
  pub set_up_or_rotate_backup-IsDerived :
      (device : Device) (w w' : World) (s : LocalSettings)
      → w.db.local_settings ≡ some s
      → set_up_or_rotate_backup device w ≡ (ok tt, w')
      → (nonce : Text) × (s' : LocalSettings) × (w'.db.local_settings ≡ some s')
        × (s'.backup_kdf_nonce ≡ some nonce)
        × IsDerived device.device_id nonce w'
  unfolding set_up_or_rotate_backup set_up_and_enable enable_backups_in_db set_backup_kdf_nonce
      update_backup_password_timestamp set_backup_enabled
  set_up_or_rotate_backup-IsDerived device w w' s row h =
      let body : App (Unit {0}) = set_up_and_enable device.device_id in
      let v : World = record w { os = (sys.os.connect w.os).1 } in
      elim (Result-cases (transaction body w).0) [
        | inl (x, p) ↦ absurd (ground arith)
        | inr (u, p) ↦
            let e : transaction body w ≡ (ok u, w') = ground arith in
            let (done, kept, _, keys, _) = transaction_of_ok body w w' u e in
            let v1 : World = (setup_or_rotate_keys_for_backup device.device_id v).1 in
            let same : v1.db.local_settings ≡ w.db.local_settings =
              setup_or_rotate_keys_for_backup-settings device.device_id v in
            elim (Result-cases (setup_or_rotate_keys_for_backup device.device_id v).0) [
              | inl (x, q) ↦ absurd (ground arith)
              | inr (nonce, q) ↦
                  let derived = setup_or_rotate_keys-IsDerived device.device_id nonce v q in
                  (
                    nonce,
                    record s {
                      backup_enabled = true;
                      backup_kdf_nonce = some nonce;
                      backup_password_updated_at = some (sys.os.rfc3339_timestamp v1.os).0;
                    },
                    ap (λ d. d.local_settings) kept ∙ rw (q, same ∙ row, set_up_and_enable) refl,
                    refl,
                    IsDerived-keychain device.device_id nonce v1 w'
                        (keys ∙ rw (q, set_up_and_enable) refl) derived,
                  )
            ]
      ]
