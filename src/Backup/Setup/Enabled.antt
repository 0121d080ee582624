-- ===== src/Backup/Setup/Enabled.antt =====
-- Setting up backups, and what is left when it fails.
use sealvault.Prelude.{
  Text, Bool, true, false, ◌≡◌, ◌∙◌, refl, sym, ap, some, List, [], ◌∷◌, inl, inr, arith,
  Bool-cases,
}
use sealvault.Prelude.Result.{ok, err, Result-cases}
use sealvault.Error.{Error}
use sealvault.Encryption.Keys.{delete_key_if_exists}
use sealvault.Encryption.BackupKeys.{delete_password, delete_kdf_secret}
use sealvault.Db.{LocalSettings}
use sealvault.Db.Settings.{
  disable_backups, set_backup_kdf_nonce, update_backup_password_timestamp, set_backup_enabled,
}
use sealvault.Backup.Create.{Device, delete_backup}
use sealvault.Backup.Setup.{
  setup_or_rotate_keys_for_backup, enable_backups_in_db, is_backup_of, delete_loop,
  delete_backups_for_device, rollback_enable_backup, disable_backup, remove_keys_for_backup,
  set_up_and_enable, set_up_or_rotate_backup,
}
use sealvault.Backup.Restore.Restored.{rollback_enable_backup-ok}
use sealvault.System.{System, World, App, transaction}
use sealvault.System.Laws.{db-transaction_of_error, transaction_of_ok}
use sealvault.Backup.Setup.KeysFrame.{setup_or_rotate_keys_for_backup-settings}

module _ ⦃sys : System⦄ where
  delete_loop-db :
      (device : Text) (names : List Text) (did_err : Bool) (w : World)
      → (delete_loop device names did_err w).1.db ≡ w.db
  unfolding delete_loop delete_backup
  delete_loop-db device [] did_err w = refl
  delete_loop-db device (name ∷ names) did_err w = elim (Bool-cases (is_backup_of device name)) [
    | inl hit ↦ rw (hit, delete_loop) (delete_loop-db device names _ _)
    | inr miss ↦ rw (miss, delete_loop) (delete_loop-db device names did_err w)
  ]

  delete_backups_for_device-db :
      (device : Text) (w : World) → (delete_backups_for_device device w).1.db ≡ w.db
  unfolding delete_backups_for_device
  delete_backups_for_device-db device w =
      ground (arith, delete_loop-db device (sys.storage.list_backup_file_names w.storage) false w)

module _ ⦃sys : System⦄ (connects : (o : sys.os.State) → (sys.os.connect o).0 ≡ ok tt)
    (commits : (o : sys.os.State) → (sys.os.commit o).0 ≡ ok tt) where
  rollback_enable_backup-runs :
      (device : Text) (w : World) → ((rollback_enable_backup device w).0 ≡ ok tt)
  unfolding rollback_enable_backup transaction remove_keys_for_backup delete_key_if_exists
      delete_password delete_kdf_secret
  rollback_enable_backup-runs device w = rw (connects w.os, commits (sys.os.connect w.os).1) refl

  pub disable_backup-db :
      (device : Text) (w : World) → (disable_backup device w).1.db ≡ disable_backups w.db
  unfolding disable_backup
  disable_backup-db device w =
      let v : World = (rollback_enable_backup device w).1 in
      let r : (rollback_enable_backup device w).0 ≡ ok tt = rollback_enable_backup-runs device w in
      let off : v.db ≡ disable_backups w.db =
        rollback_enable_backup-ok device w v (λ i. (r i, v)) in
      ground (arith, delete_backups_for_device-db device v)

  -- Where transactions can start and commit, setting up backups that fails leaves the database as it
  -- was with backups disabled: nothing of the attempt is kept.
  pub set_up_or_rotate_backup-err :
      (device : Device) (w w' : World) (e : Error)
      → set_up_or_rotate_backup device w ≡ (err e, w')
      → w'.db ≡ disable_backups w.db
  unfolding set_up_or_rotate_backup
  set_up_or_rotate_backup-err device w w' e h =
      let body : App (Unit {0}) = set_up_and_enable device.device_id in
      let v : World = (transaction body w).1 in
      elim (Result-cases (transaction body w).0) [
        | inr (u, p) ↦ absurd (ground arith)
        | inl (x, p) ↦
            let back : v.db ≡ w.db = db-transaction_of_error body w v x (λ i. (p i, v)) in
            let off : (disable_backup device.device_id v).1.db ≡ disable_backups v.db =
              disable_backup-db device.device_id v in
            let end : (disable_backup device.device_id v).1 ≡ w' = ground arith in
            ap (λ u. u.db) (sym end) ∙ off ∙ ap disable_backups back
      ]

module _ ⦃sys : System⦄ where
  -- The settings after the keys are set up and backups enabled: the flag is set and a nonce and a
  -- time are there, and the version and the profile are those of before.
  pub record IsEnabled (before after : LocalSettings) : Type 0 where
    pub enabled : after.backup_enabled ≡ true
    pub nonce : (n : Text) × (after.backup_kdf_nonce ≡ some n)
    pub password_time : (t : Text) × (after.backup_password_updated_at ≡ some t)
    pub version : after.backup_version ≡ before.backup_version
    pub profile : after.profile_id ≡ before.profile_id

  enable_backups_in_db-IsEnabled :
      (nonce : Text) (w : World) (s : LocalSettings)
      → w.db.local_settings ≡ some s
      → (s' : LocalSettings) × ((enable_backups_in_db nonce w).1.db.local_settings ≡ some s')
        × IsEnabled s s'
  unfolding enable_backups_in_db set_backup_kdf_nonce update_backup_password_timestamp
      set_backup_enabled
  enable_backups_in_db-IsEnabled nonce w s h =
      let now : Text = (sys.os.rfc3339_timestamp w.os).0 in
      (
        record s {
          backup_enabled = true;
          backup_kdf_nonce = some nonce;
          backup_password_updated_at = some now;
        },
        rw h refl,
        record {
          enabled = refl;
          nonce = (nonce, refl);
          password_time = (now, refl);
          version = refl;
          profile = refl;
        },
      )

  -- Setting up backups that succeeds leaves them enabled with a nonce, at the version of before and
  -- for the same profile.
  pub set_up_or_rotate_backup-IsEnabled :
      (device : Device) (w w' : World) (s : LocalSettings)
      → w.db.local_settings ≡ some s
      → set_up_or_rotate_backup device w ≡ (ok tt, w')
      → (s' : LocalSettings) × (w'.db.local_settings ≡ some s') × IsEnabled s s'
  unfolding set_up_or_rotate_backup set_up_and_enable
  set_up_or_rotate_backup-IsEnabled device w w' s row h =
      let body : App (Unit {0}) = set_up_and_enable device.device_id in
      let v : World = record w { os = (sys.os.connect w.os).1 } in
      elim (Result-cases (transaction body w).0) [
        | inl (x, p) ↦ absurd (ground arith)
        | inr (u, p) ↦
            let e : transaction body w ≡ (ok u, w') = ground arith in
            let (done, kept, _, _, _) = transaction_of_ok body w w' u e in
            let v1 : World = (setup_or_rotate_keys_for_backup device.device_id v).1 in
            let same : v1.db.local_settings ≡ w.db.local_settings =
              setup_or_rotate_keys_for_backup-settings device.device_id v in
            elim (Result-cases (setup_or_rotate_keys_for_backup device.device_id v).0) [
              | inl (x, q) ↦ absurd (ground arith)
              | inr (nonce, q) ↦
                  let (s', at, is) = enable_backups_in_db-IsEnabled nonce v1 s (same ∙ row) in
                  (s', ap (λ d. d.local_settings) kept ∙ rw (q, set_up_and_enable) at, is)
            ]
      ]
