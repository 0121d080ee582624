-- ===== src/Db/Settings/Laws.antt =====
-- The settings row as the backup code relies on it.
use sealvault.Prelude.{ℕ, ◌+◌, ◌<◌, ◌^◌, ◌-◌, ◌≡◌, false, none, arith}
use sealvault.Prelude.Result.{ok}
use sealvault.Db.{Db}
use sealvault.Db.Settings.{
  fetch_backup_version, increment_backup_version, disable_backups, fetch_backup_enabled,
  fetch_kdf_nonce, fetch_backup_timestamp, fetch_active_profile_id,
}

module _ {T : Type 0} where
  -- Incrementing a version below the largest 64-bit integer raises it by one.
  pub fetch_backup_version-increment :
      (db : Db T) (v : ℕ)
      → fetch_backup_version db ≡ ok v
      → v < 2 ^ 63 - 1
      → fetch_backup_version (increment_backup_version db) ≡ ok (v + 1)
  unfolding fetch_backup_version increment_backup_version
  fetch_backup_version-increment db v h lt = ground arith

  -- Disabling backups clears the flag, the nonce and the completion time, and keeps the version
  -- and the active profile.
  pub disable_backups_lem :
      (db : Db T) (v : ℕ)
      → fetch_backup_version db ≡ ok v
      → let off = disable_backups db in
        (fetch_backup_version off ≡ ok v)
        × (fetch_backup_enabled off ≡ ok false)
        × (fetch_kdf_nonce off ≡ ok none)
        × (fetch_backup_timestamp off ≡ ok none)
        × (fetch_active_profile_id off ≡ fetch_active_profile_id db)
  unfolding fetch_backup_version disable_backups fetch_backup_enabled fetch_kdf_nonce
      fetch_backup_timestamp fetch_active_profile_id
  disable_backups_lem db v h =
      (ground arith, ground arith, ground arith, ground arith, ground arith)
