-- ===== src/Wallet/Sessions/Moved.antt =====
-- A session whose address changes.
use sealvault.Prelude.{
  ◌≡◌, refl, arith, Text, Bool, List, Option-cases, some, inl, inr, ap, sym, ◌∙◌, text_eq→≡,
}
use sealvault.Prelude.Result.{ok, Result-cases}
use sealvault.Ethereum.{EthImpl}
use sealvault.System.{System, World, write}
use sealvault.Wallet.{LocalDappSessionEntity}
use sealvault.Wallet.Rows.{first, first-some, first-update_rows, update_rows}
use sealvault.Wallet.Dapps.{fetch_dapp_identifier}
use sealvault.Wallet.Addresses.{fetch_profile_id, fetch_address}
use sealvault.Wallet.Sessions.{
  LocalDappSession, has_uuid, find_session, from_entity, fetch_session_by_id, set_address,
  change_address, update_session_address,
}

module _ ⦃sys : System⦄ ⦃eth : EthImpl⦄ where
  -- A session that is read has the values of its row.
  fetch_session_by_id-row :
      (uuid : Text) (w v : World) (s : LocalDappSession)
      → fetch_session_by_id uuid w ≡ (ok s, v)
      → (row : LocalDappSessionEntity) × (first (has_uuid uuid) w.db.wallet.local_dapp_sessions
          ≡ some row)
        × (v ≡ w)
        × (s.uuid ≡ row.uuid)
        × (s.address_id ≡ row.address_id)
        × (s.dapp_id ≡ row.dapp_id)
  unfolding fetch_session_by_id from_entity find_session fetch_profile_id fetch_address
      fetch_dapp_identifier
  fetch_session_by_id-row uuid w v s h =
      elim (Option-cases (first (has_uuid uuid) w.db.wallet.local_dapp_sessions)) [
        | inl missing ↦ absurd (ground arith)
        | inr (row, found) ↦ (row, found, ground arith, ground arith, ground arith, ground arith)
      ]

  row-uuid :
      (uuid : Text) (rows : List LocalDappSessionEntity) (row : LocalDappSessionEntity)
      → first (has_uuid uuid) rows ≡ some row
      → row.uuid ≡ uuid
  unfolding has_uuid
  row-uuid uuid rows row h = text_eq→≡ row.uuid uuid (first-some (has_uuid uuid) rows h)

  change_address-rows :
      (uuid id now : Text) (w v : World)
      → write (change_address uuid id now) w ≡ (ok tt, v)
      → (v.db.wallet.local_dapp_sessions
          ≡ update_rows (has_uuid uuid) (set_address id now) w.db.wallet.local_dapp_sessions)
        × (v.db.wallet.chains ≡ w.db.wallet.chains)
  unfolding write change_address
  change_address-rows uuid id now w v h = (ground arith, ground arith)

  -- What the update of a session gives back: the row from before, at the new address
  abbrev pub Moved : LocalDappSession → Text → World → LocalDappSession → World → Type 0
  Moved session id w s v =
      (row : LocalDappSessionEntity) × (first (has_uuid session.uuid)
          w.db.wallet.local_dapp_sessions
        ≡ some row)
      × (s.uuid ≡ session.uuid)
      × (s.dapp_id ≡ row.dapp_id)
      × (s.address_id ≡ id)
      × (v.db.wallet.chains ≡ w.db.wallet.chains)

  set_address-kept :
      (uuid id now : Text) (row : LocalDappSessionEntity)
      → has_uuid uuid (set_address id now row) ≡ has_uuid uuid row
  unfolding has_uuid set_address
  set_address-kept uuid id now row = refl

  written-Moved :
      (session : LocalDappSession) (id now : Text) (w u v : World) (s : LocalDappSession)
      → (u.db.wallet.local_dapp_sessions
          ≡ update_rows
              (has_uuid session.uuid)
              (set_address id now)
              w.db.wallet.local_dapp_sessions)
        × (u.db.wallet.chains ≡ w.db.wallet.chains)
      → (row : LocalDappSessionEntity) × (first
            (has_uuid session.uuid)
            u.db.wallet.local_dapp_sessions
          ≡ some row)
        × (v ≡ u)
        × (s.uuid ≡ row.uuid)
        × (s.address_id ≡ row.address_id)
        × (s.dapp_id ≡ row.dapp_id)
      → Moved session id w s v
  unfolding set_address
  written-Moved session id now w u v s (rows, chains) (new, found, same, uuid, address, dapp) =
      let test : LocalDappSessionEntity → Bool = has_uuid session.uuid in
      let (old, before, made) =
        first-update_rows test (set_address id now) w.db.wallet.local_dapp_sessions {y = new}
          (set_address-kept session.uuid id now)
          (ap (λ (l : List LocalDappSessionEntity). first test l) (sym rows) ∙ found) in
      (
        old,
        before,
        uuid ∙ row-uuid session.uuid u.db.wallet.local_dapp_sessions new found,
        dapp ∙ ap (λ (r : LocalDappSessionEntity). r.dapp_id) made,
        address ∙ ap (λ (r : LocalDappSessionEntity). r.address_id) made,
        ap (λ (x : World). x.db.wallet.chains) same ∙ chains,
      )

  pub update_session_address-Moved :
      (session : LocalDappSession) (id : Text) (w v : World) (s : LocalDappSession)
      → update_session_address session id w ≡ (ok s, v)
      → Moved session id w s v
  unfolding update_session_address
  update_session_address-Moved session id w v s h =
      let (now, os) = sys.os.rfc3339_timestamp w.os in
      let started : World = record w { os = os } in
      let u : World = (write (change_address session.uuid id now) started).1 in
      elim (Result-cases (write (change_address session.uuid id now) started).0) [
        | inl (e, y) ↦ absurd (ground arith)
        | inr (a, y) ↦
            written-Moved session id now w u v s
              (change_address-rows session.uuid id now started u (λ i. (y i, u)))
              (fetch_session_by_id-row session.uuid u v s (ground arith))
      ]
