-- ===== src/Core/Enabling.antt =====
-- Enabling backups, which fails as a whole.
use sealvault.Prelude.{◌≡◌, arith, false, none, some, inl, inr}
use sealvault.Prelude.Result.{ok, err, Result-cases}
use sealvault.Error.{BackupError}
use sealvault.Backup.Create.{Device}
use sealvault.Backup.Create.{create_backup}
use sealvault.Backup.Setup.{set_up_or_rotate_backup}
use sealvault.Backup.Setup.Enabled.{set_up_or_rotate_backup-err, disable_backup-db}
use sealvault.Db.{Db, LocalSettings}
use sealvault.Db.Settings.{disable_backups, set_backup_enabled, set_backup_kdf_nonce}
use sealvault.System.{System, World}
use sealvault.Core.{enable_backup, disable_for_device}

-- Backups are off in the settings, and no secret of an attempt is left there.
abbrev pub IsDisabled : LocalSettings → Type 0
IsDisabled s =
    (s.backup_enabled ≡ false)
    × (s.backup_kdf_nonce ≡ none)
    × (s.backup_completed_at ≡ none)
    × (s.backup_password_updated_at ≡ none)

module _ ⦃sys : System⦄ where
  disable_backups-IsDisabled :
      (db : Db sys.Tables) (s : LocalSettings)
      → (disable_backups db).local_settings ≡ some s
      → IsDisabled s
  unfolding disable_backups set_backup_enabled set_backup_kdf_nonce
  disable_backups-IsDisabled db s h = (ground arith, ground arith, ground arith, ground arith)

module _ ⦃sys : System⦄ (connects : (o : sys.os.State) → (sys.os.connect o).0 ≡ ok tt)
    (commits : (o : sys.os.State) → (sys.os.commit o).0 ≡ ok tt) where
  disable_for_device-db :
      (device : Device) (w : World) → (disable_for_device device w).1.db ≡ disable_backups w.db
  unfolding disable_for_device
  disable_for_device-db device w = disable_backup-db connects commits device.device_id w

  -- Where transactions start and commit, enabling backups that fails, at the keys or at the first
  -- backup, leaves backups disabled in the settings, without nonce and times.
  pub enable_backup-IsDisabled :
      (device : Device) (w v : World) (e : BackupError) (s : LocalSettings)
      → enable_backup device w ≡ (err e, v)
      → v.db.local_settings ≡ some s
      → IsDisabled s
  unfolding enable_backup
  enable_backup-IsDisabled device w v e s h row =
      let u : World = (set_up_or_rotate_backup device w).1 in
      let t : World = (create_backup device u).1 in
      elim (Result-cases (set_up_or_rotate_backup device w).0) [
        | inl (x, p) ↦
            let off : u.db ≡ disable_backups w.db =
              set_up_or_rotate_backup-err connects commits device w u x (λ i. (p i, u)) in
            disable_backups-IsDisabled w.db s (ground arith)
        | inr (a, p) ↦ elim (Result-cases (create_backup device u).0) [
          | inr (m, q) ↦ absurd (ground arith)
          | inl (x, q) ↦
              disable_backups-IsDisabled t.db s (ground (arith, disable_for_device-db device t))
        ]
      ]
