-- ===== src/Encryption/Keychain/InMemory.antt =====
-- core/src/encryption/keychains/in_memory_keychain.rs: the keychain off iOS. The locks around the
-- maps are left out: the model runs one operation at a time.
use sealvault.Prelude.{
  ℕ, Text, ◌≡◌, refl, ◌↔◌, Bool, true, ◌&&◌, List, [], text_eq, text_eq_refl, text_eq→≡, arith,
  subst,
}
use sealvault.Prelude.Result.{Result, ok, ok_or, ◌>>=◌}
use sealvault.Prelude.Assoc.{KeyEq, lookup, insert, remove, lookup-insert, lookup-remove}
use sealvault.Encryption.KeyName.{KeyName, key_eq, key_eq→≡, key_eq_refl}
use sealvault.Encryption.Keychain.{
  KeychainError, KeychainImpl, IsLawful, IsKeychain, IsInfallible, read,
}

key_eq_iff : (a b : KeyName) → (key_eq a b ≡ true) ↔ (a ≡ b)
key_eq_iff a b = (key_eq→≡ a b, λ p. subst (λ c. key_eq a c ≡ true) p (key_eq_refl a))

instance abbrev KeyName-eq : KeyEq KeyName
KeyName-eq = record { same = key_eq; same_iff = key_eq_iff }

-- `SyncedKey`
abbrev SyncedKey : Type 0
SyncedKey = Text × KeyName

abbrev synced_eq : SyncedKey → SyncedKey → Bool
synced_eq (d, n) (d', n') = text_eq d d' && key_eq n n'

synced_eq_iff : (a b : SyncedKey) → (synced_eq a b ≡ true) ↔ (a ≡ b)
synced_eq_iff (d, n) (d', n') = (
  λ h. ground (arith, text_eq→≡ d d', key_eq→≡ n n'),
  λ p.
      subst (λ (k : SyncedKey). synced_eq (d, n) k ≡ true) p
        (ground (arith, text_eq_refl d, key_eq_refl n)),
)

instance abbrev SyncedKey-eq : KeyEq SyncedKey
SyncedKey-eq = record { same = synced_eq; same_iff = synced_eq_iff }

pub record InMemoryKeychain : Type 0 where
  pub local_data : List (KeyName × Text)
  pub synced_data : List (SyncedKey × Text)

unfoldable pub new : InMemoryKeychain
new = record { local_data = []; synced_data = [] }

abbrev get_local : ℕ → KeyName → InMemoryKeychain → Result KeychainError Text
get_local n name s = do
  key ← ok_or (KeychainError.not_found name) (lookup name s.local_data)
  read n key

abbrev get_synced : ℕ → Text → KeyName → InMemoryKeychain → Result KeychainError Text
get_synced n device name s = do
  key ← ok_or (KeychainError.not_found name) (lookup (device, name) s.synced_data)
  read n key

abbrev delete_local :
    KeyName → InMemoryKeychain → Result KeychainError (Unit {0}) × InMemoryKeychain
delete_local name s = (ok tt, record s { local_data = remove name s.local_data })

abbrev delete_synced :
    Text → KeyName → InMemoryKeychain → Result KeychainError (Unit {0}) × InMemoryKeychain
delete_synced device name s =
    (ok tt, record s { synced_data = remove (device, name) s.synced_data })

abbrev upsert_local :
    KeyName → Text → InMemoryKeychain → Result KeychainError (Unit {0}) × InMemoryKeychain
upsert_local name key s = (ok tt, record s { local_data = insert name key s.local_data })

abbrev upsert_synced :
    Text → KeyName → Text → InMemoryKeychain → Result KeychainError (Unit {0}) × InMemoryKeychain
upsert_synced device name key s =
    (ok tt, record s { synced_data = insert (device, name) key s.synced_data })

abbrev pub in_memory_keychain : KeychainImpl
in_memory_keychain = record {
  State = InMemoryKeychain;
  get_local = get_local;
  get_synced = get_synced;
  delete_local = delete_local;
  delete_synced = delete_synced;
  upsert_local = upsert_local;
  upsert_synced = upsert_synced;
}

pub in_memory_keychain-IsLawful : IsLawful in_memory_keychain
in_memory_keychain-IsLawful = record {
  get_local-upsert_local =
      λ name other key n s t h. ground (arith, lookup-insert name other key s.local_data);
  get_synced-upsert_local = λ name other key device n s t h. ground arith;
  get_synced-upsert_synced = λ name other key device device' n s t h.
      ground (arith, lookup-insert (device, name) (device', other) key s.synced_data);
  get_local-upsert_synced = λ name other key device n s t h. ground arith;
  get_local-delete_local =
      λ name other n s t h. ground (arith, lookup-remove name other s.local_data);
  get_local-delete_synced = λ name other device n s t h. ground arith;
}

-- The in-memory keychain keeps the promises of the keychain interface: an item that was put is read
-- back as long as it has the length and is not all zero, an item that was deleted is not found, local
-- and synced items do not mix, and no operation touches an item of another name or device. Its puts
-- and deletions always succeed.
pub in_memory_keychain-IsKeychain : IsKeychain in_memory_keychain × IsInfallible in_memory_keychain
in_memory_keychain-IsKeychain = (
  record {
    lawful = in_memory_keychain-IsLawful;
    get_synced-delete_synced = λ name other device device' n s t h.
        ground (arith, lookup-remove (device, name) (device', other) s.synced_data);
    get_synced-delete_local = λ name other device n s t h. ground arith;
  },
  record {
    upsert_local-ok = λ name key s. refl;
    upsert_synced-ok = λ device name key s. refl;
    delete_local-ok = λ name s. refl;
    delete_synced-ok = λ device name s. refl;
  },
)
