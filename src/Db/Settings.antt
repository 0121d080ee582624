-- ===== src/Db/Settings.antt =====
-- core/src/db/models/local_settings.rs: the queries and updates of the single settings row. A
-- query without the row is `NotFound`, and an update without it changes nothing.
pub mod Laws
use Prim.Native.Nat.{min}
use sealvault.Prelude.{
  ℕ, zero, suc, not, text_eq, ◌+◌, ◌-◌, ◌^◌, Text, Bool, true, false, Option, none, some, length,
  ◌==◌, if◌then◌else◌,
}
use sealvault.Prelude.Int.{ℤ, pos, negsuc}
use sealvault.Prelude.Result.{Result, ok, err, map_err, ◌>>=◌, ok_or}
use sealvault.Error.{Error}
use sealvault.Db.{LocalSettings, Db, record_not_found, database_error}
use sealvault.Wallet.{Profile, Wallet}
use sealvault.Wallet.Rows.{exists}

abbrev pub kdf_nonce_bytes : ℕ
kdf_nonce_bytes = 16

-- `BackupVersion::try_from`
unfoldable pub backup_version_try_from : ℤ → Result Error ℕ
backup_version_try_from (pos n) = ok n
backup_version_try_from (negsuc n) = err (Error.fatal "Negative backup version")

-- `KdfNonce::try_from`
unfoldable pub kdf_nonce_try_from : Text → Result Error Text
kdf_nonce_try_from value =
    if length value == kdf_nonce_bytes
    then ok value
    else err (Error.fatal "Failed to convert value to kdf nonce")

abbrev max_i64 : ℕ
max_i64 = 2 ^ 63 - 1

-- `backup_version + 1` in SQLite; past the largest integer the column reads as that integer.
unfoldable pub next_version : ℤ → ℤ
next_version (pos n) = pos (min (n + 1) max_i64)
next_version (negsuc zero) = pos 0
next_version (negsuc (suc n)) = negsuc n

nonce_of : Option Text → Result Error (Option Text)
nonce_of (some nonce) = do n ← kdf_nonce_try_from nonce; ok (some n)
nonce_of none = ok none

-- The reference of the settings to a profile
is_profile : Text → Profile → Bool
is_profile id p = text_eq p.deterministic_id id

module _ {T : Type 0} where
  row : Db T → Result Error LocalSettings
  row db = ok_or record_not_found db.local_settings

  set_row : (LocalSettings → LocalSettings) → Db T → Db T
  set_row f db = record db {
    local_settings = elim db.local_settings [ none ↦ none | some s ↦ some (f s) ];
  }

  -- `LocalSettings::create`, with the defaults of the schema; there is at most one row.
  unfoldable pub create : Text → Db T → Result Error (Db T)
  unfolding is_profile
  create profile_id db = elim db.local_settings [
    | some s ↦ err database_error
    | none ↦
        if not (exists (is_profile profile_id) db.wallet.profiles)
        then err database_error
        else ok (record db {
          local_settings = some (record {
            profile_id = profile_id;
            backup_enabled = false;
            backup_version = pos 0;
            backup_completed_at = none;
            backup_password_updated_at = none;
            backup_kdf_nonce = none;
          });
        })
  ]

  unfoldable pub fetch_active_profile_id : Db T → Result Error Text
  unfolding row
  fetch_active_profile_id db = do s ← row db; ok s.profile_id

  unfoldable pub set_active_profile_id : Text → Db T → Result Error (Db T)
  unfolding set_row is_profile
  set_active_profile_id profile_id db = elim db.local_settings [
    | none ↦ ok db
    | some s ↦
        if exists (is_profile profile_id) db.wallet.profiles
        then ok (set_row (λ r. record r { profile_id = profile_id }) db)
        else err database_error
  ]

  unfoldable pub increment_backup_version : Db T → Db T
  unfolding set_row next_version
  increment_backup_version =
      set_row (λ s. record s { backup_version = next_version s.backup_version })

  unfoldable pub fetch_backup_version : Db T → Result Error ℕ
  unfolding row backup_version_try_from
  fetch_backup_version db = do s ← row db; backup_version_try_from s.backup_version

  unfoldable pub fetch_backup_enabled : Db T → Result Error Bool
  unfolding row
  fetch_backup_enabled db = do s ← row db; ok s.backup_enabled

  unfoldable pub set_backup_enabled : Bool → Db T → Db T
  unfolding set_row
  set_backup_enabled enabled = set_row (λ s. record s { backup_enabled = enabled })

  unfoldable pub fetch_kdf_nonce : Db T → Result Error (Option Text)
  unfolding row kdf_nonce_try_from nonce_of
  fetch_kdf_nonce db = do s ← row db; nonce_of s.backup_kdf_nonce

  unfoldable pub set_backup_kdf_nonce : Option Text → Db T → Db T
  unfolding set_row
  set_backup_kdf_nonce nonce = set_row (λ s. record s { backup_kdf_nonce = nonce })

  -- `update_backup_timestamp`, at the time `now`
  unfoldable pub update_backup_timestamp : Text → Db T → Db T
  unfolding set_row
  update_backup_timestamp now = set_row (λ s. record s { backup_completed_at = some now })

  unfoldable pub fetch_backup_timestamp : Db T → Result Error (Option Text)
  unfolding row
  fetch_backup_timestamp db = do s ← row db; ok s.backup_completed_at

  unfoldable pub update_backup_password_timestamp : Text → Db T → Db T
  unfolding set_row
  update_backup_password_timestamp now =
      set_row (λ s. record s { backup_password_updated_at = some now })

  -- `disable_backups`: the version stays.
  unfoldable pub disable_backups : Db T → Db T
  unfolding set_row set_backup_kdf_nonce set_backup_enabled
  disable_backups db =
      let cleared = set_backup_enabled false (set_backup_kdf_nonce none db) in
      let pwd = set_row (λ s. record s { backup_password_updated_at = none }) cleared in
      set_row (λ s. record s { backup_completed_at = none }) pwd
