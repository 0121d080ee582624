-- ===== src/Encryption/Keychain.antt =====
-- core/src/encryption/keychains/keychain.rs: the errors of a keychain, the trait `KeychainImpl`
-- as an interface with its laws, and the wrapper `Keychain`. The child `InMemory` implements it.
pub mod InMemory
use sealvault.Prelude.{ℕ, Text, String, ◌≡◌, ◌⊎◌, Bool, true, false, text_eq, if◌then◌else◌, ◌&&◌}
use sealvault.Prelude.Result.{Result, ok, err, map_err}
use sealvault.Error.{Error}
use sealvault.Encryption.KeyName.{KeyName, key_eq, as_ref}
use sealvault.Encryption.KeyMaterial

pub data KeychainError : Type 0 where
  app : Error → KeychainError
  not_found : KeyName → KeychainError
  duplicate_item : KeyName → KeychainError
  failed_to_get : KeyName → KeychainError
  failed_to_put : KeyName → KeychainError
  failed_to_update : KeyName → KeychainError
  failed_to_delete : KeyName → KeychainError

-- `impl From<KeychainError> for Error`
unfoldable pub to_error : KeychainError → Error
to_error (KeychainError.app e) = e
to_error (KeychainError.not_found n) = Error.fatal "Keychain item doesn't exist"
to_error (KeychainError.duplicate_item n) = Error.fatal "Keychain item already exists"
to_error (KeychainError.failed_to_get n) = Error.fatal "Failed to get keychain item"
to_error (KeychainError.failed_to_put n) = Error.fatal "Failed to put keychain item"
to_error (KeychainError.failed_to_update n) = Error.fatal "Failed to update keychain item"
to_error (KeychainError.failed_to_delete n) = Error.fatal "Failed to delete keychain item"

-- The trait `KeychainImpl`. The length of the key material is its type parameter in the source.
pub record KeychainImpl : Type 1 where
  pub State : Type 0
  pub get_local : ℕ → KeyName → State → Result KeychainError Text
  pub get_synced : ℕ → Text → KeyName → State → Result KeychainError Text
  pub delete_local : KeyName → State → Result KeychainError (Unit {0}) × State
  pub delete_synced : Text → KeyName → State → Result KeychainError (Unit {0}) × State
  pub upsert_local : KeyName → Text → State → Result KeychainError (Unit {0}) × State
  pub upsert_synced : Text → KeyName → Text → State → Result KeychainError (Unit {0}) × State

-- Reading an item back as key material of `n` bytes.
abbrev pub read : ℕ → Text → Result KeychainError Text
read n bytes = map_err KeychainError.app (KeyMaterial.from_slice n bytes)

-- What the trait promises of local items, and of synced items that are put: an operation that succeeds
-- has its effect on the item that it names and on no other.
pub record IsLawful (K : KeychainImpl) : Type 0 where
  pub get_local-upsert_local :
      (name other : KeyName) (key : Text) (n : ℕ) (s t : K.State)
      → K.upsert_local name key s ≡ (ok tt, t)
      → K.get_local n other t ≡ (if key_eq name other then read n key else K.get_local n other s)
  pub get_synced-upsert_local :
      (name other : KeyName) (key device : Text) (n : ℕ) (s t : K.State)
      → K.upsert_local name key s ≡ (ok tt, t)
      → K.get_synced n device other t ≡ K.get_synced n device other s
  pub get_synced-upsert_synced :
      (name other : KeyName) (key device device' : Text) (n : ℕ) (s t : K.State)
      → K.upsert_synced device name key s ≡ (ok tt, t)
      → K.get_synced n device' other t ≡ (
          if text_eq device device' && key_eq name other
          then read n key
          else K.get_synced n device' other s)
  pub get_local-upsert_synced :
      (name other : KeyName) (key device : Text) (n : ℕ) (s t : K.State)
      → K.upsert_synced device name key s ≡ (ok tt, t)
      → K.get_local n other t ≡ K.get_local n other s
  pub get_local-delete_local :
      (name other : KeyName) (n : ℕ) (s t : K.State)
      → K.delete_local name s ≡ (ok tt, t)
      → K.get_local n other t
        ≡ (if key_eq name other then err (KeychainError.not_found other) else K.get_local n other s)
  pub get_local-delete_synced :
      (name other : KeyName) (device : Text) (n : ℕ) (s t : K.State)
      → K.delete_synced device name s ≡ (ok tt, t)
      → K.get_local n other t ≡ K.get_local n other s

-- All that the trait promises: the deletions leave the synced items alone too, but for the one that
-- is deleted from the device that is named.
pub record IsKeychain (K : KeychainImpl) : Type 0 where
  pub lawful : IsLawful K
  pub get_synced-delete_synced :
      (name other : KeyName) (device device' : Text) (n : ℕ) (s t : K.State)
      → K.delete_synced device name s ≡ (ok tt, t)
      → K.get_synced n device' other t ≡ (
          if text_eq device device' && key_eq name other
          then err (KeychainError.not_found other)
          else K.get_synced n device' other s)
  pub get_synced-delete_local :
      (name other : KeyName) (device : Text) (n : ℕ) (s t : K.State)
      → K.delete_local name s ≡ (ok tt, t)
      → K.get_synced n device other t ≡ K.get_synced n device other s

-- Puts and deletions succeed, also of items that are not there.
pub record IsInfallible (K : KeychainImpl) : Type 0 where
  pub upsert_local-ok :
      (name : KeyName) (key : Text) (s : K.State) → (K.upsert_local name key s).0 ≡ ok tt
  pub upsert_synced-ok :
      (device : Text) (name : KeyName) (key : Text) (s : K.State)
      → (K.upsert_synced device name key s).0 ≡ ok tt
  pub delete_local-ok : (name : KeyName) (s : K.State) → (K.delete_local name s).0 ≡ ok tt
  pub delete_synced-ok :
      (device : Text) (name : KeyName) (s : K.State) → (K.delete_synced device name s).0 ≡ ok tt

handle_not_found_for_if_exists : Result KeychainError (Unit {0}) → Result KeychainError (Unit {0})
handle_not_found_for_if_exists (err (KeychainError.not_found n)) = ok tt
handle_not_found_for_if_exists r = r

module _ (K : KeychainImpl) where
  -- `Keychain::delete_local_if_exists`
  unfoldable pub delete_local_if_exists :
      KeyName → K.State → Result KeychainError (Unit {0}) × K.State
  unfolding handle_not_found_for_if_exists
  delete_local_if_exists name s =
      let (r, t) = K.delete_local name s in (handle_not_found_for_if_exists r, t)

  -- `Keychain::delete_synced_if_exists`
  unfoldable pub delete_synced_if_exists :
      Text → KeyName → K.State → Result KeychainError (Unit {0}) × K.State
  unfolding handle_not_found_for_if_exists
  delete_synced_if_exists device name s =
      let (r, t) = K.delete_synced device name s in (handle_not_found_for_if_exists r, t)
