-- ===== src/Wallet/Sessions/Switch.antt =====
-- A session that changes its chain.
use sealvault.Prelude.{◌≡◌, refl, arith, Text, List, some, inl, inr, ap, sym, ◌∙◌}
use sealvault.Prelude.Result.{ok, Result-cases}
use sealvault.Ethereum.{EthImpl}
use sealvault.Ethereum.Chains.{ChainId}
use sealvault.System.{System, World}
use sealvault.Wallet.{LocalDappSessionEntity}
use sealvault.Wallet.Rows.{first}
use sealvault.Wallet.Chains.{fetch_or_create_eth_chain_id, find_chain_id}
use sealvault.Wallet.Addresses.{
  AddressEntity, address_id, fetch_or_create_for_eth_chain_with_entity, fetch_key_id, find_key_id,
  find_address,
}
use sealvault.Wallet.Found.{
  fetch_or_create_eth_chain_id-find, fetch_or_create_eth_chain_id-addresses,
  fetch_or_create_for_eth_chain_with_entity-id, fetch_or_create_for_eth_chain_with_entity-frame,
}
use sealvault.Wallet.Sessions.{LocalDappSession, has_uuid, update_session_address, change_eth_chain}
use sealvault.Wallet.Sessions.Moved.{Moved, update_session_address-Moved}

module _ ⦃sys : System⦄ ⦃eth : EthImpl⦄ where
  fetch_key_id-query : (id : Text) (w : World) → fetch_key_id id w ≡ (find_key_id id w.db, w)
  unfolding fetch_key_id
  fetch_key_id-query id w = refl

  find_key_id-addresses :
      (id : Text) (w v : World)
      → v.db.wallet.addresses ≡ w.db.wallet.addresses
      → find_key_id id v.db ≡ find_key_id id w.db
  unfolding find_key_id find_address
  find_key_id-addresses id w v h = ground arith

  find_chain_id-chains :
      (c : ChainId) (w v : World)
      → v.db.wallet.chains ≡ w.db.wallet.chains
      → find_chain_id c v.db ≡ find_chain_id c w.db
  unfolding find_chain_id
  find_chain_id-chains c w v h = ground arith

  -- What a change of chain gives back, from the session and the database before and after
  abbrev pub Switched : LocalDappSession → ChainId → World → LocalDappSession → World → Type 0
  Switched session c w s v =
      (row : LocalDappSessionEntity) × (key_id : Text) × (chain_id : Text) × (first
          (has_uuid session.uuid) w.db.wallet.local_dapp_sessions
        ≡ some row)
      × (s.uuid ≡ session.uuid)
      × (s.dapp_id ≡ row.dapp_id)
      × (find_key_id session.address_id w.db ≡ ok key_id)
      × (find_chain_id c v.db ≡ ok (some chain_id))
      × (address_id (record { asymmetric_key_id = key_id; chain_entity_id = chain_id })
          ≡ ok s.address_id)

  switched :
      (session : LocalDappSession) (c : ChainId) (w u a v : World) (s : LocalDappSession)
      (chain_id key_id id : Text)
      → find_chain_id c u.db ≡ ok (some chain_id)
      → (u.db.wallet.addresses ≡ w.db.wallet.addresses)
        × (u.db.wallet.local_dapp_sessions ≡ w.db.wallet.local_dapp_sessions)
      → find_key_id session.address_id u.db ≡ ok key_id
      → address_id (record { asymmetric_key_id = key_id; chain_entity_id = chain_id }) ≡ ok id
      → (a.db.wallet.chains ≡ u.db.wallet.chains)
        × (a.db.wallet.local_dapp_sessions ≡ u.db.wallet.local_dapp_sessions)
      → Moved session id a s v
      → Switched session c w s v
  switched session c w u a v s chain_id key_id id chain (addresses, sessions) key made
        (chains, kept) (row, found, uuid, dapp, address, last) =
      (
        row,
        key_id,
        chain_id,
        ap (λ (l : List LocalDappSessionEntity). first (has_uuid session.uuid) l)
              (sym (kept ∙ sessions))
            ∙ found,
        uuid,
        dapp,
        sym (find_key_id-addresses session.address_id w u addresses) ∙ key,
        find_chain_id-chains c u v (last ∙ chains) ∙ chain,
        made ∙ ap (λ (t : Text). ok t) (sym address),
      )

  -- A change of chain that succeeds gives the same session of the same dapp back. It is now at the
  -- address of its old key on the new chain, which is in the database.
  pub change_eth_chain-Switched :
      (session : LocalDappSession) (c : ChainId) (w v : World) (s : LocalDappSession)
      → change_eth_chain session c w ≡ (ok s, v)
      → Switched session c w s v
  unfolding change_eth_chain
  change_eth_chain-Switched session c w v s h =
      let u : World = (fetch_or_create_eth_chain_id c w).1 in
      elim (Result-cases (fetch_or_create_eth_chain_id c w).0) [
        | inl (e, x) ↦ absurd (ground arith)
        | inr (chain_id, x) ↦ elim (Result-cases (find_key_id session.address_id u.db)) [
          | inl (e, y) ↦ absurd (ground (arith, fetch_key_id-query session.address_id u))
          | inr (key_id, y) ↦
              let entity : AddressEntity = record {
                asymmetric_key_id = key_id;
                chain_entity_id = chain_id;
              } in
              let a : World = (fetch_or_create_for_eth_chain_with_entity entity u).1 in
              elim (Result-cases (fetch_or_create_for_eth_chain_with_entity entity u).0) [
                | inl (e, z) ↦ absurd (ground (arith, fetch_key_id-query session.address_id u))
                | inr (id, z) ↦
                    let moved : update_session_address session id a ≡ (ok s, v) =
                      ground (arith, fetch_key_id-query session.address_id u) in
                    switched session c w u a v s chain_id key_id id
                      (fetch_or_create_eth_chain_id-find c w u chain_id (λ i. (x i, u)))
                      (fetch_or_create_eth_chain_id-addresses c w) y
                      (fetch_or_create_for_eth_chain_with_entity-id entity u a id (λ i. (z i, a)))
                      (fetch_or_create_for_eth_chain_with_entity-frame entity u)
                      (update_session_address-Moved session id a v s moved)
              ]
        ]
      ]
