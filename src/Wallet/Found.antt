-- ===== src/Wallet/Found.antt =====
-- What is fetched or created is found afterwards: chains, addresses and sessions.
use sealvault.Prelude.{
  ◌≡◌, refl, arith, Text, true, [], ◌∷◌, ◌++◌, Option, none, some, inl, inr, text_eq_refl,
  Option-cases,
}
use sealvault.Prelude.Result.{ok, Result-cases}
use sealvault.Ethereum.{EthImpl}
use sealvault.Ethereum.Chains.{ChainId, default_user_settings}
use sealvault.System.{System, World, write}
use sealvault.Wallet.{Chain, BlockchainProtocol}
use sealvault.Wallet.Rows.{first, first-appended}
use sealvault.Wallet.Chains.{
  has_protocol_data, insert_chain, find_chain_id, row_id, fetch_eth_chain_deterministic_id,
  create_eth_chain, found_or_created, fetch_or_create_eth_chain_id,
}
use sealvault.Wallet.Addresses.{
  AddressEntity, address_id, find_existing, existing_or_created, insert_eth_for_chain_entity,
  insert_address, fetch_or_create_for_eth_chain_with_entity,
}
use sealvault.Wallet.Keys.{fetch_eth_public_key}

module _ ⦃sys : System⦄ ⦃eth : EthImpl⦄ where
  create_eth_chain-row :
      (c : ChainId) (w v : World) (id json : Text)
      → eth.protocol_data_json c ≡ ok json
      → create_eth_chain c w ≡ (ok id, v)
      → (row : Chain) × (v.db.wallet.chains ≡ w.db.wallet.chains ++ (row ∷ []))
        × (row.deterministic_id ≡ id)
        × (has_protocol_data json row ≡ true)
  unfolding create_eth_chain insert_chain write has_protocol_data
  create_eth_chain-row c w v id json j h =
      elim (Result-cases (eth.chain_settings_json (default_user_settings c))) [
        | inl (e, x) ↦ absurd (ground arith)
        | inr (settings, x) ↦
            let row : Chain = record {
              deterministic_id = id;
              protocol = BlockchainProtocol.ethereum;
              protocol_data = json;
              user_settings = settings;
              created_at = (sys.os.rfc3339_timestamp w.os).0;
              updated_at = none;
            } in
            (row, ground arith, refl, text_eq_refl json)
      ]

  create_eth_chain-find :
      (c : ChainId) (w v : World) (id json : Text)
      → eth.protocol_data_json c ≡ ok json
      → first (has_protocol_data json) w.db.wallet.chains ≡ none
      → (row : Chain) × (v.db.wallet.chains ≡ w.db.wallet.chains ++ (row ∷ []))
        × (row.deterministic_id ≡ id)
        × (has_protocol_data json row ≡ true)
      → find_chain_id c v.db ≡ ok (some id)
  unfolding find_chain_id row_id
  create_eth_chain-find c w v id json x missing (row, rows, same, found) =
      let last =
        first-appended (has_protocol_data json) w.db.wallet.chains v.db.wallet.chains row rows
          missing found in
      ground arith

  -- The id of a chain that is fetched or created is the one that a search for the chain finds.
  pub fetch_or_create_eth_chain_id-find :
      (c : ChainId) (w v : World) (id : Text)
      → fetch_or_create_eth_chain_id c w ≡ (ok id, v)
      → find_chain_id c v.db ≡ ok (some id)
  unfolding fetch_or_create_eth_chain_id fetch_eth_chain_deterministic_id found_or_created
      find_chain_id row_id
  fetch_or_create_eth_chain_id-find c w v id h = elim (Result-cases (eth.protocol_data_json c)) [
    | inl (e, x) ↦ absurd (ground arith)
    | inr (json, x) ↦ elim (Option-cases (first (has_protocol_data json) w.db.wallet.chains)) [
      | inl missing ↦
          create_eth_chain-find c w v id json x missing
            (create_eth_chain-row c w v id json x (ground arith))
      | inr (row, found) ↦ ground arith
    ]
  ]

  pub fetch_or_create_eth_chain_id-addresses :
      (c : ChainId) (w : World)
      → let v = (fetch_or_create_eth_chain_id c w).1 in
        (v.db.wallet.addresses ≡ w.db.wallet.addresses)
        × (v.db.wallet.local_dapp_sessions ≡ w.db.wallet.local_dapp_sessions)
  unfolding fetch_or_create_eth_chain_id fetch_eth_chain_deterministic_id found_or_created
      create_eth_chain insert_chain write
  fetch_or_create_eth_chain_id-addresses c w = (ground arith, ground arith)

  -- The id of an address that is fetched or created is the one of its key and chain.
  pub fetch_or_create_for_eth_chain_with_entity-id :
      (e : AddressEntity) (w v : World) (id : Text)
      → fetch_or_create_for_eth_chain_with_entity e w ≡ (ok id, v)
      → address_id e ≡ ok id
  unfolding fetch_or_create_for_eth_chain_with_entity existing_or_created find_existing
      fetch_eth_public_key insert_eth_for_chain_entity
  fetch_or_create_for_eth_chain_with_entity-id e w v id h = elim (Result-cases (address_id e)) [
    | inl (x, y) ↦ absurd (ground arith)
    | inr (i, y) ↦ ground arith
  ]

  existing_or_created-frame :
      (e : AddressEntity) (found : Option Text) (w : World)
      → let v = (existing_or_created e found w).1 in
        (v.db.wallet.chains ≡ w.db.wallet.chains)
        × (v.db.wallet.local_dapp_sessions ≡ w.db.wallet.local_dapp_sessions)
  unfolding existing_or_created fetch_eth_public_key insert_eth_for_chain_entity insert_address
      write
  existing_or_created-frame e (some id) w = (refl, refl)
  existing_or_created-frame e none w = (ground arith, ground arith)

  pub fetch_or_create_for_eth_chain_with_entity-frame :
      (e : AddressEntity) (w : World)
      → let v = (fetch_or_create_for_eth_chain_with_entity e w).1 in
        (v.db.wallet.chains ≡ w.db.wallet.chains)
        × (v.db.wallet.local_dapp_sessions ≡ w.db.wallet.local_dapp_sessions)
  unfolding fetch_or_create_for_eth_chain_with_entity
  fetch_or_create_for_eth_chain_with_entity-frame e w = elim (Result-cases (find_existing e w.db)) [
    | inl (x, h) ↦ (ground arith, ground arith)
    | inr (found, h) ↦ let f = existing_or_created-frame e found w in (ground arith, ground arith)
  ]
