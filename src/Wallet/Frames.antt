-- ===== src/Wallet/Frames.antt =====
-- The operations on chains, keys, addresses and sessions do not touch the table of migrations.
use sealvault.Prelude.{◌≡◌, refl, arith, Text, List, Option, none, some, inl, inr}
use sealvault.Prelude.Result.{Result-cases}
use sealvault.Ethereum.{EthImpl, Url}
use sealvault.Ethereum.Chains.{ChainId}
use sealvault.Encryption.Keys.{DataEncryptionKey, encrypt_secret, sk_kek, encrypt, try_random_bytes}
use sealvault.Backup.Setup.{fetch_dek}
use sealvault.System.{System, World, write}
use sealvault.Wallet.{DataMigration}
use sealvault.Wallet.Chains.{
  fetch_or_create_eth_chain_id, found_or_created, create_eth_chain,
  fetch_eth_chain_deterministic_id, insert_chain,
}
use sealvault.Wallet.Dapps.{create_if_not_exists, insert_dapp, fetch_dapp_identifier}
use sealvault.Wallet.Keys.{
  insert_new_key, insert_key, fetch_id_for_dapp, fetch_eth_public_key, NewAsymmetricKey,
}
use sealvault.Wallet.Addresses.{
  AddressEntity, NewAddress, find_existing, insert_eth, insert_eth_for_chain_entity, insert_address,
  existing_or_created, fetch_or_create_for_eth_chain_with_entity, fetch_profile_id, fetch_address,
}
use sealvault.Wallet.Addresses.Signing.{
  CreateEthAddressParams, store_new_key, create_eth_key_and_address,
}
use sealvault.Encryption.EncryptionOutput.{EncryptionOutput}
use sealvault.Wallet.Sessions.{
  NewDappSessionParams, create_eth_session, insert_session, fetch_session_by_id, from_entity,
}

module _ ⦃sys : System⦄ where
  abbrev pub migrations : World → List DataMigration
  migrations w = w.db.wallet.data_migrations

module _ ⦃sys : System⦄ ⦃eth : EthImpl⦄ where
  pub create_if_not_exists-migrations :
      (url : Url) (w : World) → migrations (create_if_not_exists url w).1 ≡ migrations w
  unfolding create_if_not_exists insert_dapp
  create_if_not_exists-migrations url w = ground arith

  fetch_or_create_eth_chain_id-migrations :
      (c : ChainId) (w : World) → migrations (fetch_or_create_eth_chain_id c w).1 ≡ migrations w
  unfolding fetch_or_create_eth_chain_id found_or_created create_eth_chain
      fetch_eth_chain_deterministic_id insert_chain write
  fetch_or_create_eth_chain_id-migrations c w = ground arith

  insert_new_key-migrations :
      (k : NewAsymmetricKey) (w : World) → migrations (insert_new_key k w).1 ≡ migrations w
  unfolding insert_new_key insert_key write
  insert_new_key-migrations k w = ground arith

  insert_eth_for_chain_entity-migrations :
      (a : NewAddress) (id : Text) (w : World)
      → migrations (insert_eth_for_chain_entity a id w).1 ≡ migrations w
  unfolding insert_eth_for_chain_entity insert_address write
  insert_eth_for_chain_entity-migrations a id w = ground arith

  insert_eth-migrations :
      (a : NewAddress) (c : ChainId) (w : World) → migrations (insert_eth a c w).1 ≡ migrations w
  unfolding insert_eth
  insert_eth-migrations a c w =
      let v : World = (fetch_or_create_eth_chain_id c w).1 in
      let one = fetch_or_create_eth_chain_id-migrations c w in
      elim (Result-cases (fetch_or_create_eth_chain_id c w).0) [
        | inl (e, x) ↦ ground arith
        | inr (id, x) ↦ ground (arith, insert_eth_for_chain_entity-migrations a id v)
      ]

  existing_or_created-migrations :
      (e : AddressEntity) (found : Option Text) (w : World)
      → migrations (existing_or_created e found w).1 ≡ migrations w
  unfolding existing_or_created fetch_eth_public_key insert_eth_for_chain_entity insert_address
      write
  existing_or_created-migrations e (some id) w = refl
  existing_or_created-migrations e none w = ground arith

  fetch_or_create_for_eth_chain_with_entity-migrations :
      (e : AddressEntity) (w : World)
      → migrations (fetch_or_create_for_eth_chain_with_entity e w).1 ≡ migrations w
  unfolding fetch_or_create_for_eth_chain_with_entity
  fetch_or_create_for_eth_chain_with_entity-migrations e w =
      elim (Result-cases (find_existing e w.db)) [
        | inl (x, h) ↦ ground arith
        | inr (found, h) ↦ ground (arith, existing_or_created-migrations e found w)
      ]

  fetch_session_by_id-same : (uuid : Text) (w : World) → (fetch_session_by_id uuid w).1 ≡ w
  unfolding fetch_session_by_id from_entity fetch_profile_id fetch_address fetch_dapp_identifier
  fetch_session_by_id-same uuid w = ground arith

  encrypt_secret-migrations :
      (dek : DataEncryptionKey) (secret : Text) (w : World)
      → migrations (encrypt_secret dek secret w).1 ≡ migrations w
  unfolding encrypt_secret encrypt try_random_bytes
  encrypt_secret-migrations dek secret w = ground arith

  store_new_key-migrations :
      (params : CreateEthAddressParams) (dek_id public_key : Text) (o : EncryptionOutput)
      (secret : Text) (w : World)
      → migrations (store_new_key params dek_id public_key o secret w).1 ≡ migrations w
  unfolding store_new_key
  store_new_key-migrations params dek_id public_key o secret w =
      grind (arith, insert_new_key-migrations, insert_eth-migrations)

  pub create_eth_key_and_address-migrations :
      (params : CreateEthAddressParams) (w : World)
      → migrations (create_eth_key_and_address params w).1 ≡ migrations w
  unfolding create_eth_key_and_address sk_kek fetch_dek
  create_eth_key_and_address-migrations params w =
      grind (arith, encrypt_secret-migrations, store_new_key-migrations)

  pub create_eth_session-migrations :
      (params : NewDappSessionParams) (w : World)
      → migrations (create_eth_session params w).1 ≡ migrations w
  unfolding create_eth_session fetch_id_for_dapp insert_session write
  create_eth_session-migrations params w = grind (
    arith, fetch_or_create_eth_chain_id-migrations,
    fetch_or_create_for_eth_chain_with_entity-migrations, fetch_session_by_id-same,
  )
