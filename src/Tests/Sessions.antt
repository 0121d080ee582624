-- ===== src/Tests/Sessions.antt =====
-- Examples of signatures, sessions, ids and migrations, on the small system.
use sealvault.Prelude.{
  ◌≡◌, refl, arith, Text, codes, Bool, true, false, Option, none, some, List, [], ◌∷◌, ◌⊎◌, ◌≤◌,
  All, length,
}
use sealvault.Prelude.Result.{Result, ok}
use sealvault.Error.{Error}
use sealvault.Ethereum.{SigningKey}
use sealvault.Ethereum.Chains.{ChainId}
use sealvault.System.{World}
use sealvault.Wallet.{LocalDappSessionEntity, Profile, ProfilePicture, DataMigration}
use sealvault.Wallet.Profiles.{profile_entity_id}
use sealvault.Wallet.Addresses.Signing.{fetch_eth_signing_key}
use sealvault.Wallet.Addresses.{address_id, find_key_id}
use sealvault.Wallet.Chains.{find_chain_id}
use sealvault.Wallet.Ids.{EntityName, deterministic_id}
use sealvault.Wallet.Ids.Collisions.{Collision, deterministic_id-injective}
use sealvault.Wallet.Rows.{first}
use sealvault.Wallet.Sessions.{LocalDappSession, has_uuid, change_eth_chain}
use sealvault.Wallet.Sessions.Switch.{Switched, change_eth_chain-Switched}
use sealvault.Migrations.{run_all}
use sealvault.Migrations.Once.{Recorded}
use sealvault.Migrations.Steps.{all_migrations}
use sealvault.Migrations.Steps.Kept.{all_migrations-once}
use sealvault.Provider.{Page, Call, Task}
use sealvault.Provider.Signed.{
  SignedOnce, SentOnce, personal_sign-signed, eth_send_transaction-sent,
}
use sealvault.Provider.Signing.{
  personal_sign, eth_send_transaction, fetch_session_key, personal_sign_message,
  approved_dapp_transaction,
}
use sealvault.Tests.Toy.{toy, repeat}
use sealvault.Tests.ToyPage.{
  toy_eth, toy_impl, toy_url, toy_tx, toy_address, toy_session, approved_page, approved_wallet,
  world_with,
}

abbrev toy_key : SigningKey
toy_key = record {
  chain_id = ChainId.polygon_mainnet;
  secret_key = repeat 32 3;
  address = toy_address;
}

key_run :
    fetch_eth_signing_key ⦃sys = toy⦄ ⦃eth = toy_eth⦄ (codes "address") approved_page.world
    ≡ (ok toy_key, approved_page.world)
unfolding fetch_eth_signing_key first sealvault.Encryption.EncryptionOutput.try_from
    sealvault.Ethereum.Chains.try_from_u64 sealvault.Encryption.KeyName.from_str
    sealvault.Encryption.Keys.sk_kek sealvault.Prelude.Assoc.lookup
    sealvault.Encryption.KeyName.key_eq sealvault.Encryption.KeyMaterial.from_slice
    sealvault.Backup.Setup.fetch_dek sealvault.Db.Deks.fetch_encrypted_dek
    sealvault.Encryption.KeyName.as_ref sealvault.Encryption.Keys.from_encrypted
    sealvault.Encryption.Keys.decrypt_secret sealvault.Ethereum.signing_key
key_run = refl

session_key_run :
    fetch_session_key ⦃sys = toy⦄ ⦃eth = toy_eth⦄ toy_session approved_page
    ≡ (ok toy_key, approved_page)
unfolding fetch_session_key sealvault.System.transaction
session_key_run = rw key_run refl

-- A message that is signed, and a transaction that is sent
abbrev signed : Result Error Text × Page ⦃sys = toy⦄
signed =
    personal_sign ⦃sys = toy⦄ ⦃eth = toy_eth⦄ ⦃impl = toy_impl⦄ (codes "hi") toy_address none
      toy_session approved_page

signed_run : signed ≡ (ok (personal_sign_message (codes "hi")), signed.1)
unfolding personal_sign sealvault.Provider.Signing.signed_answer
    sealvault.Provider.Signing.sign_message sealvault.Provider.Codes.to_value
signed_run = rw session_key_run refl

personal_sign-signed_example :
    SignedOnce ⦃sys = toy⦄ ⦃eth = toy_eth⦄ ⦃impl = toy_impl⦄
      (codes "hi")
      toy_address
      toy_session
      approved_page
      signed.0
      signed.1.calls
personal_sign-signed_example =
    personal_sign-signed ⦃sys = toy⦄ ⦃eth = toy_eth⦄ ⦃impl = toy_impl⦄ (codes "hi") toy_address none
      toy_session approved_page

abbrev sent : Result Error Text × Page ⦃sys = toy⦄
sent =
    eth_send_transaction ⦃sys = toy⦄ ⦃eth = toy_eth⦄ ⦃impl = toy_impl⦄ toy_tx toy_session
      approved_page

sent_run : sent ≡ (ok (codes "answer"), sent.1)
unfolding eth_send_transaction approved_dapp_transaction sealvault.Provider.Signing.outcome
    sealvault.Provider.Codes.to_value
sent_run = rw session_key_run refl

eth_send_transaction-sent_example :
    SentOnce ⦃sys = toy⦄ ⦃eth = toy_eth⦄ ⦃impl = toy_impl⦄ toy_tx toy_session approved_page sent.0
      sent.1.calls
eth_send_transaction-sent_example =
    eth_send_transaction-sent ⦃sys = toy⦄ ⦃eth = toy_eth⦄ ⦃impl = toy_impl⦄ toy_tx toy_session
      approved_page

abbrev before : World ⦃sys = toy⦄
before = approved_page.world

abbrev switched : Result Error LocalDappSession × World ⦃sys = toy⦄
switched = change_eth_chain ⦃sys = toy⦄ ⦃eth = toy_eth⦄ toy_session ChainId.eth_goerli before

abbrev goerli_session : LocalDappSession
goerli_session = record toy_session {
  address_id = 81 ∷ repeat 51 65;
  chain_id = ChainId.eth_goerli;
}

switched_run : switched ≡ (ok goerli_session, switched.1)
unfolding change_eth_chain sealvault.Wallet.Chains.fetch_or_create_eth_chain_id first
    sealvault.Ethereum.Chains.to_u64 deterministic_id sealvault.Wallet.Ids.hash_input
    sealvault.Wallet.Ids.parse_id sealvault.Wallet.Ids.is_deterministic_id
    sealvault.Wallet.Ids.qualified_entity_name sealvault.Wallet.Rows.exists
    sealvault.Wallet.Addresses.fetch_key_id
    sealvault.Wallet.Addresses.fetch_or_create_for_eth_chain_with_entity
    sealvault.Wallet.Keys.fetch_eth_public_key sealvault.Ethereum.checksum_address
    sealvault.Wallet.Addresses.insert_eth_for_chain_entity
    sealvault.Wallet.Sessions.update_session_address sealvault.Wallet.Sessions.fetch_session_by_id
    sealvault.Ethereum.Chains.default_user_settings sealvault.System.write address_id
    sealvault.Wallet.Addresses.existing_or_created sealvault.Wallet.Addresses.fetch_address
    sealvault.Wallet.Addresses.fetch_profile_id sealvault.Wallet.Addresses.find_address
    sealvault.Wallet.Addresses.find_existing find_key_id sealvault.Wallet.Addresses.find_profile_id
    sealvault.Wallet.Addresses.find_raw_address sealvault.Wallet.Addresses.has_address_id
    sealvault.Wallet.Addresses.insert_address sealvault.Wallet.Chains.chain_entity_id
    sealvault.Wallet.Chains.create_eth_chain sealvault.Wallet.Chains.fetch_chain_data
    sealvault.Wallet.Chains.fetch_eth_chain_deterministic_id find_chain_id
    sealvault.Wallet.Chains.found_or_created sealvault.Wallet.Chains.has_chain_id
    sealvault.Wallet.Chains.has_protocol_data sealvault.Wallet.Chains.insert_chain
    sealvault.Wallet.Chains.row_id sealvault.Wallet.Dapps.fetch_dapp_identifier
    sealvault.Wallet.Dapps.find_dapp_identifier sealvault.Wallet.Dapps.has_dapp_id
    sealvault.Wallet.Ids.column_bytes sealvault.Wallet.Ids.entity_name
    sealvault.Wallet.Keys.find_eth_public_key sealvault.Wallet.Keys.has_key_id
    sealvault.Wallet.Rows.update_rows sealvault.Wallet.Sessions.change_address
    sealvault.Wallet.Sessions.find_session sealvault.Wallet.Sessions.find_session_chain
    sealvault.Wallet.Sessions.from_entity has_uuid sealvault.Wallet.Sessions.set_address
    sealvault.Wallet.Sessions.uses_address sealvault.Ethereum.Chains.try_from_u64
switched_run = refl

change_eth_chain-Switched_example :
    Switched ⦃sys = toy⦄ ⦃eth = toy_eth⦄ toy_session ChainId.eth_goerli before goerli_session
      switched.1
change_eth_chain-Switched_example =
    change_eth_chain-Switched ⦃sys = toy⦄ ⦃eth = toy_eth⦄ toy_session ChainId.eth_goerli before
      switched.1 goerli_session switched_run

abbrev columns : Text × Text
columns = (repeat 3 65, repeat 2 66)

abbrev shared_id : Text
shared_id = 84 ∷ repeat 51 65

columns_run :
    deterministic_id ⦃eth = toy_eth⦄ EntityName.address (repeat 3 65 ∷ (repeat 2 66 ∷ []))
    ≡ ok shared_id
unfolding deterministic_id sealvault.Wallet.Ids.hash_input sealvault.Wallet.Ids.parse_id
    sealvault.Wallet.Ids.is_deterministic_id sealvault.Wallet.Ids.qualified_entity_name
columns_run = refl

other_columns_run :
    deterministic_id ⦃eth = toy_eth⦄ EntityName.address (repeat 3 65 ∷ (repeat 28 66 ∷ []))
    ≡ ok shared_id
unfolding deterministic_id sealvault.Wallet.Ids.hash_input sealvault.Wallet.Ids.parse_id
    sealvault.Wallet.Ids.is_deterministic_id sealvault.Wallet.Ids.qualified_entity_name
other_columns_run = refl

deterministic_id-injective_example :
    ((repeat 3 65 ≡ repeat 3 65) × (repeat 2 66 ≡ repeat 28 66)) ⊎ Collision ⦃eth = toy_eth⦄
deterministic_id-injective_example =
    deterministic_id-injective ⦃eth = toy_eth⦄ EntityName.address (repeat 3 65) (repeat 2 66)
      (repeat 3 65) (repeat 28 66) shared_id (omega arith) refl (omega arith) (omega arith)
      columns_run other_columns_run

-- The first migration is recorded; the dapps of the page are there, so that the second adds none; and
-- the profile has the id of an account, so that the third renames it.
abbrev account_id : Text
account_id = 89 ∷ repeat 51 65

abbrev first_version : DataMigration
first_version = record {
  deterministic_id = codes "first";
  version = codes "v0";
  description = [];
  created_at = codes "then";
  updated_at = none;
}

abbrev old_profile : Profile
old_profile = record {
  deterministic_id = account_id;
  uuid = codes "u";
  name = codes "Default";
  picture_id = codes "picture";
  created_at = codes "then";
  updated_at = none;
}

abbrev picture : ProfilePicture
picture = record {
  deterministic_id = codes "picture";
  image_name = none;
  image = [];
  image_hash = [];
  created_at = codes "then";
  updated_at = none;
}

abbrev old_world : World ⦃sys = toy⦄
old_world = world_with (record approved_wallet {
  data_migrations = first_version ∷ [];
  profiles = old_profile ∷ [];
  profile_pictures = picture ∷ [];
})

account_id_run :
    profile_entity_id ⦃sys = toy⦄ ⦃eth = toy_eth⦄ EntityName.account (codes "u") ≡ ok account_id
unfolding profile_entity_id deterministic_id sealvault.Wallet.Ids.hash_input
    sealvault.Wallet.Ids.parse_id sealvault.Wallet.Ids.is_deterministic_id
    sealvault.Wallet.Ids.qualified_entity_name
account_id_run = refl

abbrev migrated : Result Error (Unit {0}) × World ⦃sys = toy⦄
migrated =
    run_all ⦃sys = toy⦄ ⦃eth = toy_eth⦄ (all_migrations ⦃sys = toy⦄ ⦃eth = toy_eth⦄ (toy_url ∷ []))
      old_world

migrated_run : migrated ≡ (ok tt, migrated.1)
unfolding run_all sealvault.Migrations.run_migrations sealvault.Migrations.contains_version
    sealvault.Migrations.Steps.migration_v0 sealvault.Migrations.migration_v1
    sealvault.Migrations.apply_migration sealvault.Migrations.record_or_roll_back
    sealvault.Wallet.Dapps.list_all_dapps sealvault.Migrations.insert_new_migration deterministic_id
    sealvault.Wallet.Ids.hash_input sealvault.Wallet.Ids.parse_id
    sealvault.Wallet.Ids.is_deterministic_id sealvault.Wallet.Ids.qualified_entity_name
    sealvault.Wallet.Rows.exists sealvault.Migrations.Steps.migration_v2
    sealvault.Migrations.Steps.migrate_profiles sealvault.Migrations.Steps.migrate_picture
    sealvault.Migrations.Steps.migrate_pictures_loop sealvault.Wallet.Pictures.list_all_pictures
    sealvault.Migrations.Steps.migrate_profile_pictures sealvault.Wallet.Rows.filter
    sealvault.Wallet.Profiles.set_uuid sealvault.Wallet.Profiles.delete_profile
    sealvault.Migrations.Steps.move_profile_keys sealvault.Wallet.Keys.list_all_keys
    sealvault.Db.Settings.fetch_active_profile_id sealvault.Wallet.Profiles.insert_profile
    sealvault.Migrations.Steps.rename_profile sealvault.Wallet.Pictures.picture_entity_id
    sealvault.Wallet.Rows.update_rows sealvault.Wallet.Profiles.list_all_profiles
    sealvault.Migrations.Steps.migrate_profiles_loop sealvault.Migrations.Steps.migrate_profile
    profile_entity_id
migrated_run = refl

all_migrations-once_example :
    All
      (Recorded ⦃sys = toy⦄ migrated.1)
      (all_migrations ⦃sys = toy⦄ ⦃eth = toy_eth⦄ (toy_url ∷ []))
    × (run_all ⦃sys = toy⦄ ⦃eth = toy_eth⦄
          (all_migrations ⦃sys = toy⦄ ⦃eth = toy_eth⦄ (toy_url ∷ []))
          migrated.1
        ≡ (ok tt, migrated.1))
all_migrations-once_example =
    all_migrations-once ⦃sys = toy⦄ ⦃eth = toy_eth⦄ (toy_url ∷ []) old_world migrated.1 migrated_run
