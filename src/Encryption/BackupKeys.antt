-- ===== src/Encryption/BackupKeys.antt =====
-- core/src/encryption/kdf_secret.rs, kdf_nonce.rs, root_backup_key.rs and the keychain operations
-- of backup_password.rs: the secrets from which the keys of a backup are derived.
use sealvault.Prelude.{ℕ, zero, suc, Text, String, [], ◌∷◌}
use sealvault.Prelude.Result.{Result, ok, ◌>>=◌ as and_then}
use sealvault.Prelude.Exec.{◌>>=◌, ◌>>◌, pure, lift}
use sealvault.Error.{Error}
use sealvault.Encryption.KeyName.{KeyName}
use sealvault.Encryption.KeyMaterial
use sealvault.Encryption.BackupPassword.{password_length, alphabet}
use sealvault.Encryption.Keychain.{delete_local_if_exists, delete_synced_if_exists}
use sealvault.Encryption.Keys.{
  DataEncryptionKey, KeyEncryptionKey, key_bytes, random_material, try_random_bytes,
}
use sealvault.Db.Settings.{kdf_nonce_bytes, kdf_nonce_try_from}
use sealvault.System.{System, App, on_clock, read_keychain, on_keychain}

abbrev pub db_backup_dek_context : String
db_backup_dek_context =
    "org.sealvault.backup.keys.database-backup-data-encryption-key unique suffix: 4dd843f710923a5ce96a974732c42b9b"

abbrev pub sk_backup_kek_context : String
sk_backup_kek_context =
    "org.sealvault.backup.keys.secret-key-backup-key-encryption-key unique suffix: ced64bf5a8364f2c90424c0efa869a86"

-- `ALPHABET[i]`
symbol_at : ℕ → Text → ℕ
symbol_at i [] = 0
symbol_at zero (c ∷ cs) = c
symbol_at (suc i) (c ∷ cs) = symbol_at i cs

module _ ⦃sys : System⦄ where
  -- `KdfSecret::from_keychain`
  unfoldable pub kdf_secret_from_keychain : Text → App Text
  kdf_secret_from_keychain device =
      read_keychain (sys.keychain.get_synced key_bytes device KeyName.kdf_secret)

  -- `KdfSecret::save_to_keychain`
  unfoldable pub save_kdf_secret : Text → Text → App (Unit {0})
  save_kdf_secret secret device =
      on_keychain (sys.keychain.upsert_synced device KeyName.kdf_secret secret)

  -- `KdfSecret::setup_or_rotate`
  unfoldable pub setup_kdf_secret : Text → App Text
  unfolding random_material save_kdf_secret kdf_secret_from_keychain
  setup_kdf_secret device = do
    secret ← random_material key_bytes
    save_kdf_secret secret device
    kdf_secret_from_keychain device

  -- `KdfSecret::delete_from_keychain_if_exists`
  unfoldable pub delete_kdf_secret : Text → App (Unit {0})
  delete_kdf_secret device =
      on_keychain (delete_synced_if_exists sys.keychain device KeyName.kdf_secret)

  -- the loop of `BackupPassword::random`
  random_symbols : ℕ → App Text
  random_symbols zero = pure []
  random_symbols (suc n) = do
    index ← on_clock (sys.os.gen_range 32)
    rest ← random_symbols n
    pure (symbol_at index alphabet ∷ rest)

  -- `BackupPassword::random`
  unfoldable pub random_password : App Text
  unfolding random_symbols symbol_at
  random_password = do password ← random_symbols password_length; lift (KeyMaterial.new password)

  -- `BackupPassword::from_keychain`
  unfoldable pub password_from_keychain : App Text
  password_from_keychain =
      read_keychain (sys.keychain.get_local password_length KeyName.backup_password)

  -- `BackupPassword::setup_or_rotate`
  unfoldable pub setup_password : App Text
  unfolding random_password password_from_keychain
  setup_password = do
    password ← random_password
    on_keychain (sys.keychain.upsert_local KeyName.backup_password password)
    password_from_keychain

  -- `BackupPassword::delete_from_keychain_if_exists`
  unfoldable pub delete_password : App (Unit {0})
  delete_password = on_keychain (delete_local_if_exists sys.keychain KeyName.backup_password)

  -- `KdfNonce::random`
  unfoldable pub random_nonce : App Text
  unfolding try_random_bytes
  random_nonce = try_random_bytes kdf_nonce_bytes

  -- `KdfNonce::from_str`
  unfoldable pub nonce_from_str : Text → Result Error Text
  nonce_from_str s = and_then (sys.crypto.base64_decode s) kdf_nonce_try_from

  -- `RootBackupKey::derive_from`
  unfoldable pub derive_root : Text → Text → Text → Result Error Text
  derive_root password secret nonce =
      and_then (sys.crypto.argon2id password secret nonce) KeyMaterial.new

  -- `RootBackupKey::derive_db_backup_dek`
  unfoldable pub derive_db_backup_dek : Text → Result Error DataEncryptionKey
  derive_db_backup_dek root =
      and_then
        (KeyMaterial.from_slice key_bytes (sys.crypto.blake3_derive_key db_backup_dek_context root))
        λ key. ok (record { name = KeyName.db_backup_data_encryption_key; key_material = key })

  -- `RootBackupKey::derive_sk_backup_kek`
  unfoldable pub derive_sk_backup_kek : Text → Result Error KeyEncryptionKey
  derive_sk_backup_kek root =
      and_then
        (KeyMaterial.from_slice key_bytes (sys.crypto.blake3_derive_key sk_backup_kek_context root))
        λ key. ok (record { name = KeyName.sk_backup_key_encryption_key; key_material = key })
