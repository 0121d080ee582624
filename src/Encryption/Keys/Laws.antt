-- ===== src/Encryption/Keys/Laws.antt =====
-- Wrapping a data encryption key under a key encryption key and unwrapping it again.
use sealvault.Prelude.{◌≡◌, Text, arith, codes}
use sealvault.Prelude.Result.{ok}
use sealvault.Encryption.KeyName.{as_ref}
use sealvault.Encryption.KeyMaterial.{IsKeyMaterial, from_slice-eq-ok}
use sealvault.Encryption.EncryptionOutput.{EncryptionOutput}
use sealvault.Encryption.Keys.{
  DataEncryptionKey, KeyEncryptionKey, key_bytes, to_encrypted, from_encrypted, encrypt, decrypt,
}
use sealvault.System.{System, World, Crypto}

-- The promise of the AEAD: decryption with the same key, nonce and associated data gives the
-- message back.
pub record IsAead (c : Crypto) : Type 0 where
  pub decrypt-encrypt :
      (key nonce msg aad cipher : Text)
      → c.aead_encrypt key nonce msg aad ≡ ok cipher
      → c.aead_decrypt key nonce cipher aad ≡ ok msg

module _ ⦃sys : System⦄ (aead : IsAead sys.crypto) where
  pub decrypt-encrypt :
      (msg aad key : Text) (w w' : World) (o : EncryptionOutput)
      → encrypt msg aad key w ≡ (ok o, w')
      → decrypt o aad key ≡ ok msg
  unfolding encrypt decrypt
  decrypt-encrypt msg aad key w w' o h = grind (arith, aead.decrypt-encrypt)

  -- A data encryption key that was encrypted under a key encryption key is recovered from the
  -- output with that key, name included.
  pub from_encrypted-to_encrypted :
      (dek : DataEncryptionKey) (kek : KeyEncryptionKey) (w w' : World) (o : EncryptionOutput)
      → IsKeyMaterial key_bytes dek.key_material
      → to_encrypted dek kek w ≡ (ok o, w')
      → from_encrypted dek.name o kek ≡ ok dek
  unfolding to_encrypted from_encrypted
  from_encrypted-to_encrypted dek kek w w' o v h =
      let name = codes (as_ref dek.name) in
      let d : sys.crypto.aead_decrypt kek.key_material o.nonce o.cipher_text name
          ≡ ok dek.key_material =
        decrypt-encrypt dek.key_material name kek.key_material w w' o h in
      rw (d, from_slice-eq-ok key_bytes dek.key_material v)
