-- ===== src/Db.antt =====
-- core/src/db: the tables of the local database: settings and the encryptions of keys here, and the
-- tables of Wallet. Tokens are the parameter `Tables`, which is carried along unread.
pub mod Settings
pub mod Deks
use sealvault.Prelude.{ℕ, Text, String, Bool, Option, none, some, List}
use sealvault.Prelude.Int.{ℤ}
use sealvault.Error.{Error}
use sealvault.Wallet.{Wallet}

-- core/src/db/models/local_settings.rs; the id of the row is the constant `SINGLETON_ID`
pub record LocalSettings : Type 0 where
  pub profile_id : Text
  pub backup_enabled : Bool
  pub backup_version : ℤ
  pub backup_completed_at : Option Text
  pub backup_password_updated_at : Option Text
  pub backup_kdf_nonce : Option Text

-- core/src/db/models/data_encryption_key.rs
pub record DekRow : Type 0 where
  pub deterministic_id : Text
  pub name : String

-- core/src/db/models/local_encrypted_dek.rs; `encrypted_dek` holds the bytes of the column
pub record LedRow : Type 0 where
  pub id : ℕ
  pub dek_id : Text
  pub encrypted_dek : Text
  pub kek_name : String
  pub created_at : Text
  pub updated_at : Option Text

pub record Db (Tables : Type 0) : Type 0 where
  pub local_settings : Option LocalSettings
  pub data_encryption_keys : List DekRow
  pub local_encrypted_deks : List LedRow
  pub wallet : Wallet
  pub tables : Tables

-- `diesel::result::Error::NotFound`, as core/src/error.rs converts it
abbrev pub record_not_found : Error
record_not_found = Error.fatal "Record not found"

-- Any other error of the database
abbrev pub database_error : Error
database_error = Error.fatal "Unexpected Diesel database error kind"
