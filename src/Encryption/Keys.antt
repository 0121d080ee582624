-- ===== src/Encryption/Keys.antt =====
-- core/src/encryption/encryption_key.rs, encrypt_decrypt.rs and the random key material of
-- key_material.rs: data encryption keys and key encryption keys, as two types over the same
-- wrapper, and the AEAD calls. The associated data of a wrapped key is its name.
pub mod Laws
use sealvault.Prelude.{[], ℕ, ◌-◌, Text, codes, length, ltb, if◌then◌else◌}
use sealvault.Prelude.Result.{Result, ok, err, ◌>>=◌ as and_then}
use sealvault.Prelude.Exec.{◌>>=◌, ◌>>◌, pure, raise, lift}
use sealvault.Error.{Error}
use sealvault.Encryption.KeyName.{KeyName, as_ref}
use sealvault.Encryption.KeyMaterial
use sealvault.Encryption.EncryptionOutput.{EncryptionOutput}
use sealvault.Encryption.Keychain.{delete_local_if_exists}
use sealvault.System.{System, World, App, on_os, read_keychain, on_keychain}

-- `EncryptionKey`, with 32 bytes
abbrev pub key_bytes : ℕ
key_bytes = 32

pub record DataEncryptionKey : Type 0 where
  pub name : KeyName
  pub key_material : Text

pub record KeyEncryptionKey : Type 0 where
  pub name : KeyName
  pub key_material : Text

module _ ⦃sys : System⦄ where
  -- `utils::try_fill_random_bytes`: fewer than 16 bytes are refused.
  unfoldable pub try_random_bytes : ℕ → App Text
  try_random_bytes n =
      if ltb n 16
      then raise (Error.fatal "Insecure secret buffer length.")
      else on_os (sys.os.random_bytes n)

  -- `KeyMaterial::random`
  unfoldable pub random_material : ℕ → App Text
  unfolding try_random_bytes
  random_material n = do buffer ← try_random_bytes n; lift (KeyMaterial.new buffer)

  -- `encrypt`, under the bytes of a key
  unfoldable pub encrypt : Text → Text → Text → App EncryptionOutput
  unfolding try_random_bytes
  encrypt msg aad key = do
    nonce ← try_random_bytes 24
    cipher_text ← lift (sys.crypto.aead_encrypt key nonce msg aad)
    pure (record { cipher_text = cipher_text; nonce = nonce })

  -- `decrypt`
  unfoldable pub decrypt : EncryptionOutput → Text → Text → Result Error Text
  decrypt output aad key = sys.crypto.aead_decrypt key output.nonce output.cipher_text aad

  -- `DataEncryptionKey::to_encrypted`
  unfoldable pub to_encrypted : DataEncryptionKey → KeyEncryptionKey → App EncryptionOutput
  unfolding encrypt
  to_encrypted dek with_key =
      encrypt dek.key_material (codes (as_ref dek.name)) with_key.key_material

  -- `DataEncryptionKey::from_encrypted`
  unfoldable pub from_encrypted :
      KeyName → EncryptionOutput → KeyEncryptionKey → Result Error DataEncryptionKey
  unfolding decrypt
  from_encrypted name output kek =
      and_then (decrypt output (codes (as_ref name)) kek.key_material) λ bytes.
        and_then (KeyMaterial.from_slice key_bytes bytes)
          λ key. ok (record { name = name; key_material = key })

  -- `DataEncryptionKey::db_backup_dek`
  unfoldable pub db_backup_dek : App DataEncryptionKey
  db_backup_dek = do
    key ← read_keychain (sys.keychain.get_local key_bytes KeyName.db_backup_data_encryption_key)
    pure (record { name = KeyName.db_backup_data_encryption_key; key_material = key })

  -- `KeyEncryptionKey::from_keychain`
  unfoldable pub kek_from_keychain : KeyName → App KeyEncryptionKey
  kek_from_keychain name = do
    key ← read_keychain (sys.keychain.get_local key_bytes name)
    pure (record { name = name; key_material = key })

  -- `KeyEncryptionKey::random` and `DataEncryptionKey::random`
  unfoldable pub random_kek : KeyName → App KeyEncryptionKey
  unfolding random_material
  random_kek name = do
    key ← random_material key_bytes
    pure (record { name = name; key_material = key })

  unfoldable pub random_dek : KeyName → App DataEncryptionKey
  unfolding random_material
  random_dek name = do
    key ← random_material key_bytes
    pure (record { name = name; key_material = key })

  -- `upsert_to_local_keychain` of both key types
  unfoldable pub upsert_dek : DataEncryptionKey → App (Unit {0})
  upsert_dek k = on_keychain (sys.keychain.upsert_local k.name k.key_material)

  unfoldable pub upsert_kek : KeyEncryptionKey → App (Unit {0})
  upsert_kek k = on_keychain (sys.keychain.upsert_local k.name k.key_material)

  -- `delete_from_keychain_if_exists` of both key types
  unfoldable pub delete_key_if_exists : KeyName → App (Unit {0})
  delete_key_if_exists name = on_keychain (delete_local_if_exists sys.keychain name)

  -- `DataEncryptionKey::encrypt_secret` and `decrypt_secret`, without associated data
  unfoldable pub encrypt_secret : DataEncryptionKey → Text → App EncryptionOutput
  unfolding encrypt
  encrypt_secret dek secret = encrypt secret [] dek.key_material

  unfoldable pub decrypt_secret : DataEncryptionKey → EncryptionOutput → Result Error Text
  unfolding decrypt
  decrypt_secret dek output = decrypt output [] dek.key_material

  -- `KeyEncryptionKey::sk_kek`
  unfoldable pub sk_kek : App KeyEncryptionKey
  unfolding kek_from_keychain
  sk_kek = kek_from_keychain KeyName.sk_key_encryption_key
