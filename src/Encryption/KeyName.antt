-- ===== src/Encryption/KeyName.antt =====
-- core/src/encryption/key_name.rs: the names of keys and their serializations.
use sealvault.Prelude.{
  ℕ, zero, suc, String, ◌≡◌, refl, Bool, true, ◌==◌, Option, none, some, str_eq, if◌then◌else◌,
  arith,
}

pub data KeyName : Type 0 where
  sk_key_encryption_key : KeyName
  sk_data_encryption_key : KeyName
  backup_password : KeyName
  kdf_secret : KeyName
  root_backup_key : KeyName
  db_backup_data_encryption_key : KeyName
  sk_backup_key_encryption_key : KeyName

-- The derived `AsRef<str>`.
unfoldable pub as_ref : KeyName → String
as_ref KeyName.sk_key_encryption_key = "SK-KEY-ENCRYPTION-KEY"
as_ref KeyName.sk_data_encryption_key = "SK-DATA-ENCRYPTION-KEY"
as_ref KeyName.backup_password = "BACKUP-PASSWORD"
as_ref KeyName.kdf_secret = "KDF-SECRET"
as_ref KeyName.root_backup_key = "ROOT-BACKUP-KEY"
as_ref KeyName.db_backup_data_encryption_key = "DATABASE-BACKUP-DATA-ENCRYPTION-KEY"
as_ref KeyName.sk_backup_key_encryption_key = "SECRET-KEY-BACKUP-KEY-ENCRYPTION-KEY"

abbrev index : KeyName → ℕ
index KeyName.sk_key_encryption_key = 0
index KeyName.sk_data_encryption_key = 1
index KeyName.backup_password = 2
index KeyName.kdf_secret = 3
index KeyName.root_backup_key = 4
index KeyName.db_backup_data_encryption_key = 5
index KeyName.sk_backup_key_encryption_key = 6

abbrev from_index : ℕ → KeyName
from_index n = elim n [
  | zero ↦ KeyName.sk_key_encryption_key
  | suc zero ↦ KeyName.sk_data_encryption_key
  | suc (suc zero) ↦ KeyName.backup_password
  | suc (suc (suc zero)) ↦ KeyName.kdf_secret
  | suc (suc (suc (suc zero))) ↦ KeyName.root_backup_key
  | suc (suc (suc (suc (suc zero)))) ↦ KeyName.db_backup_data_encryption_key
  | _ ↦ KeyName.sk_backup_key_encryption_key
]

-- The derived `PartialEq`.
unfoldable pub key_eq : KeyName → KeyName → Bool
key_eq a b = index a == index b

from_index-index : (a : KeyName) → from_index (index a) ≡ a
from_index-index KeyName.sk_key_encryption_key = refl
from_index-index KeyName.sk_data_encryption_key = refl
from_index-index KeyName.backup_password = refl
from_index-index KeyName.kdf_secret = refl
from_index-index KeyName.root_backup_key = refl
from_index-index KeyName.db_backup_data_encryption_key = refl
from_index-index KeyName.sk_backup_key_encryption_key = refl

pub key_eq→≡ : (a b : KeyName) → key_eq a b ≡ true → a ≡ b
unfolding key_eq
key_eq→≡ a b h = ground (arith, from_index-index a, from_index-index b)

pub key_eq_refl : (a : KeyName) → key_eq a a ≡ true
unfolding key_eq
key_eq_refl a = ground arith

-- The derived `EnumString`.
unfoldable pub from_str : String → Option KeyName
from_str s =
    if str_eq s "SK-KEY-ENCRYPTION-KEY"
    then some KeyName.sk_key_encryption_key
    else if str_eq s "SK-DATA-ENCRYPTION-KEY"
    then some KeyName.sk_data_encryption_key
    else if str_eq s "BACKUP-PASSWORD"
    then some KeyName.backup_password
    else if str_eq s "KDF-SECRET"
    then some KeyName.kdf_secret
    else if str_eq s "ROOT-BACKUP-KEY"
    then some KeyName.root_backup_key
    else if str_eq s "DATABASE-BACKUP-DATA-ENCRYPTION-KEY"
    then some KeyName.db_backup_data_encryption_key
    else if str_eq s "SECRET-KEY-BACKUP-KEY-ENCRYPTION-KEY"
    then some KeyName.sk_backup_key_encryption_key
    else none

-- Each key name is read back from its serialization, so no two share one.
pub from_str-as_ref : (a : KeyName) → from_str (as_ref a) ≡ some a
unfolding from_str as_ref
from_str-as_ref KeyName.sk_key_encryption_key = refl
from_str-as_ref KeyName.sk_data_encryption_key = refl
from_str-as_ref KeyName.backup_password = refl
from_str-as_ref KeyName.kdf_secret = refl
from_str-as_ref KeyName.root_backup_key = refl
from_str-as_ref KeyName.db_backup_data_encryption_key = refl
from_str-as_ref KeyName.sk_backup_key_encryption_key = refl
