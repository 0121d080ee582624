-- ===== src/Wallet/Addresses.antt =====
-- core/src/db/models/address.rs: the address of a key on a chain. The row of an address on a chain
-- is created when it is first needed.
pub mod Signing
use sealvault.Prelude.{
  Text, Bool, ◌&&◌, ◌||◌, not, List, [], ◌∷◌, ◌++◌, Option, none, some, text_eq, if◌then◌else◌,
}
use sealvault.Prelude.Result.{Result, ok, err, ok_or, ◌>>=◌ as and_then}
use sealvault.Prelude.Exec.{◌>>=◌, ◌>>◌, pure, lift}
use sealvault.Error.{Error}
use sealvault.Ethereum.{EthImpl, checksum_address}
use sealvault.Ethereum.Chains.{ChainId}
use sealvault.Db.{Db, record_not_found, database_error}
use sealvault.System.{System, World, App, on_clock, query, write}
use sealvault.Wallet.{Address, Wallet}
use sealvault.Wallet.Ids.{EntityName, deterministic_id}
use sealvault.Wallet.Chains.{has_chain_id, fetch_or_create_eth_chain_id}
use sealvault.Wallet.Keys.{has_key_id, fetch_eth_public_key}
use sealvault.Wallet.Rows.{first, exists}

-- `AddressEntity`
pub record AddressEntity : Type 0 where
  pub asymmetric_key_id : Text
  pub chain_entity_id : Text

-- `NewAddress`
pub record NewAddress : Type 0 where
  pub asymmetric_key_id : Text
  pub address : Text

unfoldable pub has_address_id : Text → Address → Bool
has_address_id id a = text_eq a.deterministic_id id

is_address_of : Text → Text → Address → Bool
is_address_of key_id chain_id a = text_eq a.asymmetric_key_id key_id && text_eq a.chain_id chain_id

-- The primary key, one address for a key and a chain, and the references to the two
unfoldable pub insert_address : {T : Type 0} → Address → Db T → Result Error (Db T)
unfolding has_address_id is_address_of has_key_id has_chain_id
insert_address a db =
    if exists (has_address_id a.deterministic_id) db.wallet.addresses
      || exists (is_address_of a.asymmetric_key_id a.chain_id) db.wallet.addresses
      || not (exists (has_key_id a.asymmetric_key_id) db.wallet.asymmetric_keys)
      || not (exists (has_chain_id a.chain_id) db.wallet.chains)
    then err database_error
    else ok
        (record db { wallet = record db.wallet { addresses = db.wallet.addresses ++ (a ∷ []) } })

unfoldable pub find_address : {T : Type 0} → Text → Db T → Result Error Address
unfolding has_address_id
find_address id db = ok_or record_not_found (first (has_address_id id) db.wallet.addresses)

-- `Address::fetch_key_id`, `fetch_address` and `fetch_profile_id`
unfoldable pub find_key_id : {T : Type 0} → Text → Db T → Result Error Text
unfolding find_address
find_key_id id db = and_then (find_address id db) λ a. ok a.asymmetric_key_id

unfoldable pub find_raw_address : {T : Type 0} → Text → Db T → Result Error Text
unfolding find_address
find_raw_address id db = and_then (find_address id db) λ a. ok a.address

unfoldable pub find_profile_id : {T : Type 0} → Text → Db T → Result Error Text
unfolding find_address has_key_id
find_profile_id id db = and_then (find_address id db) λ a.
    and_then
      (ok_or record_not_found (first (has_key_id a.asymmetric_key_id) db.wallet.asymmetric_keys))
      λ k. ok k.profile_id

module _ ⦃eth : EthImpl⦄ where
  -- `AddressEntity::address_id`
  unfoldable pub address_id : AddressEntity → Result Error Text
  address_id e =
      deterministic_id EntityName.address (e.asymmetric_key_id ∷ (e.chain_entity_id ∷ []))

  -- `Address::exists`
  unfoldable pub find_existing : {T : Type 0} → AddressEntity → Db T → Result Error (Option Text)
  unfolding address_id has_address_id
  find_existing e db =
      and_then (address_id e)
        λ id. ok (if exists (has_address_id id) db.wallet.addresses then some id else none)

module _ ⦃sys : System⦄ ⦃eth : EthImpl⦄ where
  unfoldable pub fetch_key_id : Text → App Text
  unfolding find_key_id
  fetch_key_id id = query (find_key_id id)

  unfoldable pub fetch_address : Text → App Text
  unfolding find_raw_address
  fetch_address id = query (find_raw_address id)

  unfoldable pub fetch_profile_id : Text → App Text
  unfolding find_profile_id
  fetch_profile_id id = query (find_profile_id id)

  -- `NewAddress::insert_eth_for_chain_entity` and `insert_eth`
  unfoldable pub insert_eth_for_chain_entity : NewAddress → Text → App Text
  unfolding address_id insert_address write
  insert_eth_for_chain_entity a chain_entity_id = do
    id ← lift (
        address_id
          (record { asymmetric_key_id = a.asymmetric_key_id; chain_entity_id = chain_entity_id }))
    now ← on_clock sys.os.rfc3339_timestamp
    write (
        insert_address (record {
          deterministic_id = id;
          asymmetric_key_id = a.asymmetric_key_id;
          chain_id = chain_entity_id;
          address = a.address;
          created_at = now;
          updated_at = none;
        }))
    pure id

  unfoldable pub insert_eth : NewAddress → ChainId → App Text
  unfolding insert_eth_for_chain_entity
  insert_eth a c = do
    chain_entity_id ← fetch_or_create_eth_chain_id c
    insert_eth_for_chain_entity a chain_entity_id

  unfoldable pub existing_or_created : AddressEntity → Option Text → App Text
  existing_or_created e (some id) = pure id
  existing_or_created e none = do
    public_key ← fetch_eth_public_key e.asymmetric_key_id
    address ← lift (checksum_address public_key)
    insert_eth_for_chain_entity
        (record { asymmetric_key_id = e.asymmetric_key_id; address = address }) e.chain_entity_id

  unfoldable pub fetch_or_create_for_eth_chain_with_entity : AddressEntity → App Text
  unfolding existing_or_created find_existing
  fetch_or_create_for_eth_chain_with_entity e = do
    found ← query (find_existing e)
    existing_or_created e found

  unfoldable pub fetch_or_create_for_eth_chain : Text → ChainId → App Text
  fetch_or_create_for_eth_chain address_id c = do
    chain_entity_id ← fetch_or_create_eth_chain_id c
    key_id ← fetch_key_id address_id
    fetch_or_create_for_eth_chain_with_entity
        (record { asymmetric_key_id = key_id; chain_entity_id = chain_entity_id })
