-- ===== src/Wallet.antt =====
-- core/src/db/models: the rows of the tables that hold chains, dapps, keys, addresses, sessions and
-- profiles, and the migrations that were applied. A column of JSON holds its text.
pub mod Ids
pub mod Rows
pub mod Chains
pub mod Dapps
pub mod Keys
pub mod Addresses
pub mod Sessions
pub mod Pictures
pub mod Profiles
pub mod Deks
pub mod Frames
pub mod Found
use sealvault.Prelude.{Text, Bool, Option, List}

pub data BlockchainProtocol : Type 0 where
  ethereum : BlockchainProtocol

pub data EllipticCurve : Type 0 where
  secp256k1 : EllipticCurve

pub record Chain : Type 0 where
  pub deterministic_id : Text
  pub protocol : BlockchainProtocol
  pub protocol_data : Text
  pub user_settings : Text
  pub created_at : Text
  pub updated_at : Option Text

pub record Dapp : Type 0 where
  pub deterministic_id : Text
  pub identifier : Text
  pub url : Text
  pub created_at : Text
  pub updated_at : Option Text

pub record AsymmetricKey : Type 0 where
  pub deterministic_id : Text
  pub profile_id : Text
  pub dek_id : Text
  pub elliptic_curve : EllipticCurve
  pub public_key : Text
  pub encrypted_der : Text
  pub is_profile_wallet : Bool
  pub dapp_id : Option Text
  pub created_at : Text
  pub updated_at : Option Text

pub record Address : Type 0 where
  pub deterministic_id : Text
  pub asymmetric_key_id : Text
  pub chain_id : Text
  pub address : Text
  pub created_at : Text
  pub updated_at : Option Text

pub record LocalDappSessionEntity : Type 0 where
  pub uuid : Text
  pub address_id : Text
  pub dapp_id : Text
  pub last_used_at : Text
  pub created_at : Text
  pub updated_at : Text

pub record Profile : Type 0 where
  pub deterministic_id : Text
  pub uuid : Text
  pub name : Text
  pub picture_id : Text
  pub created_at : Text
  pub updated_at : Option Text

pub record ProfilePicture : Type 0 where
  pub deterministic_id : Text
  pub image_name : Option Text
  pub image_hash : Text
  pub image : Text
  pub created_at : Text
  pub updated_at : Option Text

pub record DataMigration : Type 0 where
  pub deterministic_id : Text
  pub version : Text
  pub description : Text
  pub created_at : Text
  pub updated_at : Option Text

pub record Wallet : Type 0 where
  pub chains : List Chain
  pub dapps : List Dapp
  pub asymmetric_keys : List AsymmetricKey
  pub addresses : List Address
  pub local_dapp_sessions : List LocalDappSessionEntity
  pub profiles : List Profile
  pub profile_pictures : List ProfilePicture
  pub data_migrations : List DataMigration
