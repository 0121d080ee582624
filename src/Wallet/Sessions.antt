-- ===== src/Wallet/Sessions.antt =====
-- core/src/db/models/local_dapp_session.rs: the session of a dapp in a profile, which remembers the
-- address, and with it the chain, that the dapp uses on this device.
pub mod Moved
pub mod Switch
use sealvault.Prelude.{
  Text, Bool, ◌&&◌, ◌||◌, not, List, [], ◌∷◌, ◌++◌, Option, none, some, text_eq, if◌then◌else◌,
}
use sealvault.Prelude.Result.{Result, ok, err, ok_or, ◌>>=◌ as and_then}
use sealvault.Prelude.Exec.{◌>>=◌, ◌>>◌, pure, lift}
use sealvault.Error.{Error}
use sealvault.Ethereum.{EthImpl}
use sealvault.Ethereum.Chains.{ChainId}
use sealvault.Db.{Db, record_not_found, database_error}
use sealvault.System.{System, World, App, on_clock, query, update, write}
use sealvault.Wallet.{Address, AsymmetricKey, LocalDappSessionEntity, Wallet}
use sealvault.Wallet.Chains.{fetch_or_create_eth_chain_id, fetch_chain_data}
use sealvault.Wallet.Dapps.{has_dapp_id, has_profile_id, fetch_dapp_identifier}
use sealvault.Wallet.Keys.{has_key_id, fetch_id_for_dapp}
use sealvault.Wallet.Addresses.{
  has_address_id, find_address, fetch_key_id, fetch_address, fetch_profile_id,
  fetch_or_create_for_eth_chain_with_entity,
}
use sealvault.Wallet.Rows.{first, exists, update_rows}

pub record LocalDappSession : Type 0 where
  pub uuid : Text
  pub profile_id : Text
  pub address_id : Text
  pub address : Text
  pub dapp_id : Text
  pub dapp_human_identifier : Text
  pub chain_id : ChainId

pub record NewDappSessionParams : Type 0 where
  pub dapp_id : Text
  pub profile_id : Text
  pub chain_id : ChainId

unfoldable pub has_uuid : Text → LocalDappSessionEntity → Bool
has_uuid uuid s = text_eq s.uuid uuid

unfoldable pub uses_address : Text → LocalDappSessionEntity → Bool
uses_address id s = text_eq s.address_id id

-- The primary key, one session for an address, and the references to an address and a dapp
unfoldable pub insert_session : {T : Type 0} → LocalDappSessionEntity → Db T → Result Error (Db T)
unfolding has_uuid uses_address has_address_id has_dapp_id
insert_session s db =
    if exists (has_uuid s.uuid) db.wallet.local_dapp_sessions
      || exists (uses_address s.address_id) db.wallet.local_dapp_sessions
      || not (exists (has_address_id s.address_id) db.wallet.addresses)
      || not (exists (has_dapp_id s.dapp_id) db.wallet.dapps)
    then err database_error
    else ok (record db {
      wallet = record db.wallet { local_dapp_sessions = db.wallet.local_dapp_sessions ++ (s ∷ []) };
    })

unfoldable pub find_session : {T : Type 0} → Text → Db T → Result Error LocalDappSessionEntity
unfolding has_uuid
find_session uuid db = ok_or record_not_found (first (has_uuid uuid) db.wallet.local_dapp_sessions)

-- A key with this id belongs to the profile, which is in the database.
unfoldable pub is_key_of_profile : Text → Text → AsymmetricKey → Bool
unfolding has_key_id
is_key_of_profile profile_id key_id k = has_key_id key_id k && text_eq k.profile_id profile_id

unfoldable pub is_address_of_profile : Text → Text → Wallet → Address → Bool
unfolding has_address_id is_key_of_profile has_profile_id
is_address_of_profile profile_id id w a =
    has_address_id id a
    && exists (is_key_of_profile profile_id a.asymmetric_key_id) w.asymmetric_keys
    && exists (has_profile_id profile_id) w.profiles

-- The joins and filters of `LocalDappSession::fetch_eth_session`
unfoldable pub is_session_of : Text → Text → Wallet → LocalDappSessionEntity → Bool
unfolding is_address_of_profile
is_session_of dapp_id profile_id w s =
    text_eq s.dapp_id dapp_id
    && exists (is_address_of_profile profile_id s.address_id w) w.addresses

unfoldable pub find_eth_session :
    {T : Type 0} → Text → Text → Db T → Result Error (Option LocalDappSessionEntity)
unfolding is_session_of
find_eth_session dapp_id profile_id db =
    ok (first (is_session_of dapp_id profile_id db.wallet) db.wallet.local_dapp_sessions)

-- An update of a row that makes two sessions share an address, or that refers to no address, is
-- refused.
unfoldable pub set_address : Text → Text → LocalDappSessionEntity → LocalDappSessionEntity
set_address id now s = record s { address_id = id; updated_at = now }

unfoldable pub change_address : {T : Type 0} → Text → Text → Text → Db T → Result Error (Db T)
unfolding has_uuid uses_address has_address_id set_address
change_address uuid id now db =
    if exists (λ s. uses_address id s && not (has_uuid uuid s)) db.wallet.local_dapp_sessions
      || not (exists (has_address_id id) db.wallet.addresses)
    then err database_error
    else ok (record db {
      wallet = record db.wallet {
        local_dapp_sessions =
            update_rows (has_uuid uuid) (set_address id now) db.wallet.local_dapp_sessions;
      };
    })

set_used : Text → LocalDappSessionEntity → LocalDappSessionEntity
set_used now s = record s { last_used_at = now }

unfoldable pub change_used : {T : Type 0} → Text → Text → Db T → Db T
unfolding has_uuid set_used
change_used uuid now db = record db {
  wallet = record db.wallet {
    local_dapp_sessions = update_rows (has_uuid uuid) (set_used now) db.wallet.local_dapp_sessions;
  };
}

module _ ⦃eth : EthImpl⦄ where
  -- `LocalDappSessionEntity::fetch_eth_chain_id`
  unfoldable pub find_session_chain : {T : Type 0} → Text → Db T → Result Error ChainId
  unfolding find_session find_address fetch_chain_data
  find_session_chain uuid db =
      and_then (find_session uuid db)
        λ s. and_then (find_address s.address_id db) λ a. fetch_chain_data a.chain_id db

module _ ⦃sys : System⦄ ⦃eth : EthImpl⦄ where
  unfoldable pub from_entity : LocalDappSessionEntity → App LocalDappSession
  unfolding find_session_chain
  from_entity s = do
    chain_id ← query (find_session_chain s.uuid)
    profile_id ← fetch_profile_id s.address_id
    address ← fetch_address s.address_id
    identifier ← fetch_dapp_identifier s.dapp_id
    pure (record {
      uuid = s.uuid;
      profile_id = profile_id;
      address_id = s.address_id;
      address = address;
      dapp_id = s.dapp_id;
      dapp_human_identifier = identifier;
      chain_id = chain_id;
    })

  unfoldable pub fetch_session_by_id : Text → App LocalDappSession
  unfolding find_session from_entity
  fetch_session_by_id uuid = do entity ← query (find_session uuid); from_entity entity

  optional_session : Option LocalDappSessionEntity → App (Option LocalDappSession)
  unfolding from_entity
  optional_session none = pure none
  optional_session (some entity) = do session ← from_entity entity; pure (some session)

  unfoldable pub fetch_eth_session : Text → Text → App (Option LocalDappSession)
  unfolding find_eth_session optional_session
  fetch_eth_session dapp_id profile_id = do
    entity ← query (find_eth_session dapp_id profile_id)
    optional_session entity

  unfoldable pub create_eth_session : NewDappSessionParams → App LocalDappSession
  create_eth_session params = do
    chain_entity_id ← fetch_or_create_eth_chain_id params.chain_id
    key_id ← fetch_id_for_dapp params.profile_id params.dapp_id
    address_id ←
        fetch_or_create_for_eth_chain_with_entity
          (record { asymmetric_key_id = key_id; chain_entity_id = chain_entity_id })
    uuid ← on_clock sys.os.new_uuid
    now ← on_clock sys.os.rfc3339_timestamp
    write (
        insert_session (record {
          uuid = uuid;
          address_id = address_id;
          dapp_id = params.dapp_id;
          last_used_at = now;
          created_at = now;
          updated_at = now;
        }))
    fetch_session_by_id uuid

  session_or_created : NewDappSessionParams → Option LocalDappSession → App LocalDappSession
  unfolding create_eth_session
  session_or_created params (some session) = pure session
  session_or_created params none = create_eth_session params

  unfoldable pub create_eth_session_if_not_exists : NewDappSessionParams → App LocalDappSession
  unfolding session_or_created
  create_eth_session_if_not_exists params = do
    found ← fetch_eth_session params.dapp_id params.profile_id
    session_or_created params found

  unfoldable pub update_session_address : LocalDappSession → Text → App LocalDappSession
  unfolding change_address write
  update_session_address session new_address_id = do
    now ← on_clock sys.os.rfc3339_timestamp
    write (change_address session.uuid new_address_id now)
    fetch_session_by_id session.uuid

  unfoldable pub change_eth_chain : LocalDappSession → ChainId → App LocalDappSession
  change_eth_chain session new_chain_id = do
    chain_entity_id ← fetch_or_create_eth_chain_id new_chain_id
    key_id ← fetch_key_id session.address_id
    new_address_id ←
        fetch_or_create_for_eth_chain_with_entity
          (record { asymmetric_key_id = key_id; chain_entity_id = chain_entity_id })
    update_session_address session new_address_id

  unfoldable pub update_last_used_at : LocalDappSession → App LocalDappSession
  update_last_used_at session = do
    now ← on_clock sys.os.rfc3339_timestamp
    update (change_used session.uuid now)
    fetch_session_by_id session.uuid
