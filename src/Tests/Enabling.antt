-- ===== src/Tests/Enabling.antt =====
-- An example of backups that cannot be enabled, on the small system.
use sealvault.Prelude.{◌≡◌, refl, codes, false, none, some, ap, ◌∙◌}
use sealvault.Prelude.Int.{pos}
use sealvault.Prelude.Result.{err}
use sealvault.Error.{Error, BackupError, CoreError}
use sealvault.Backup.Setup.Enabled.{set_up_or_rotate_backup-err}
use sealvault.Core.{enable_backup}
use sealvault.Core.Enabling.{IsDisabled, enable_backup-IsDisabled}
use sealvault.Db.{LocalSettings}
use sealvault.Db.Settings.{disable_backups}
use sealvault.Tests.Toy.{toy, toy_device}
use sealvault.Tests.Setups.{locked, set_up_locked, locked_run}

abbrev off : LocalSettings
off = record {
  profile_id = codes "profile";
  backup_enabled = false;
  backup_version = pos 7;
  backup_completed_at = none;
  backup_password_updated_at = none;
  backup_kdf_nonce = none;
}

off_row : set_up_locked.db.local_settings ≡ some off
unfolding disable_backups sealvault.Db.Settings.set_backup_enabled
    sealvault.Db.Settings.set_backup_kdf_nonce
off_row =
    ap (λ d. d.local_settings)
      (set_up_or_rotate_backup-err ⦃sys = toy⦄ (λ o. refl) (λ o. refl) toy_device locked
        set_up_locked (Error.fatal "Keychain item doesn't exist") locked_run)
    ∙ refl

enable_run :
    enable_backup ⦃sys = toy⦄ toy_device locked
    ≡ (err (BackupError.error (CoreError.fatal "Keychain item doesn't exist")), set_up_locked)
unfolding enable_backup sealvault.Error.to_backup_error sealvault.Error.to_core_error
enable_run = rw locked_run refl

enable_backup-IsDisabled_example : IsDisabled off
enable_backup-IsDisabled_example =
    enable_backup-IsDisabled ⦃sys = toy⦄ (λ o. refl) (λ o. refl) toy_device locked set_up_locked
      (BackupError.error (CoreError.fatal "Keychain item doesn't exist")) off enable_run off_row
