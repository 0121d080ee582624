-- ===== src/Backup/Setup/Deleted.antt =====
-- Which files go when backups are disabled.
use sealvault.Prelude.{
  Text, ◌≡◌, refl, ◌↔◌, Bool, true, false, List, [], ◌∷◌, Elem, arith, inl, inr, Bool-cases, ◌∙◌,
  sym, subst, if◌then◌else◌,
}
use mathlib.Core.Bool.{true≢false}
use sealvault.Prelude.Result.{ok}
use sealvault.Backup.Create.{delete_backup}
use sealvault.Backup.Create.Outdated.{IsStorage, Listed, delete_backup-Listed}
use sealvault.Backup.Setup.{is_backup_of, delete_loop, delete_backups_for_device}
use sealvault.System.{System, World}

module _ ⦃sys : System⦄ where
  -- A failure is remembered to the end of the loop.
  delete_loop-failed :
      (device : Text) (names : List Text) (w : World) → (delete_loop device names true w).0 ≡ true
  unfolding delete_loop
  delete_loop-failed device [] w = refl
  delete_loop-failed device (name ∷ names) w = elim (Bool-cases (is_backup_of device name)) [
    | inl hit ↦ elim (Bool-cases (delete_backup name w).0) [
      | inl done ↦ rw (hit, done, delete_loop) (delete_loop-failed device names _)
      | inr kept ↦ rw (hit, kept, delete_loop) (delete_loop-failed device names _)
    ]
    | inr miss ↦ rw (miss, delete_loop) (delete_loop-failed device names w)
  ]

module _ ⦃sys : System⦄ (S : IsStorage sys.storage) where
  delete_loop-Listed :
      (device : Text) (names : List Text) (did_err : Bool) (other : Text) (w : World)
      → (Listed S other (delete_loop device names did_err w).1 → Listed S other w)
        × (is_backup_of device other ≡ false
            → Listed S other w
            → Listed S other (delete_loop device names did_err w).1)
  unfolding delete_loop
  delete_loop-Listed device [] did_err other w = (λ h. h, λ _ h. h)
  delete_loop-Listed device (name ∷ names) did_err other w =
      elim (Bool-cases (is_backup_of device name)) [
        | inl hit ↦
            let (success, w') = delete_backup name w in
            let (back1, on1) = delete_backup-Listed S name other w in
            let (back, on) =
              delete_loop-Listed device names (if success then did_err else true) other w' in
            rw (hit, delete_loop)
              (λ h. back1 (back h), λ keep h. on keep (on1 (λ q. cc (q, hit, keep)) h))
        | inr miss ↦ rw (miss, delete_loop) (delete_loop-Listed device names did_err other w)
      ]

  delete_loop-gone :
      (device : Text) (names : List Text) (did_err : Bool) (other : Text) (w : World)
      → (delete_loop device names did_err w).0 ≡ false
      → Elem other names
      → is_backup_of device other ≡ true
      → Listed S other (delete_loop device names did_err w).1
      → ⊥
  unfolding delete_loop delete_backup
  delete_loop-gone device [] did_err other w fine m hit h = absurd m
  delete_loop-gone device (name ∷ names) did_err other w fine m hit h =
      elim (Bool-cases (is_backup_of device name)) [
        | inl yes' ↦
            let w' : World = (delete_backup name w).1 in
            elim (Bool-cases (delete_backup name w).0) [
              | inl done ↦ elim m [
                | inl p ↦
                    S.gone name w.storage w'.storage (λ i. (done i, w'.storage))
                      (subst (λ n. Listed S n w') p
                        ((delete_loop-Listed device names did_err other w').0
                          (rw (yes', done, delete_loop) at h)))
                | inr m' ↦
                    delete_loop-gone device names did_err other w'
                      (rw (yes', done, delete_loop) at fine) m' hit
                      (rw (yes', done, delete_loop) at h)
              ]
              | inr kept ↦ absurd (
                  true≢false (
                    sym (delete_loop-failed device names w')
                    ∙ rw (yes', kept, delete_loop) at fine))
            ]
        | inr no' ↦ elim m [
          | inl p ↦ absurd (cc (p, hit, no'))
          | inr m' ↦
              delete_loop-gone device names did_err other w (rw (no', delete_loop) at fine) m' hit
                (rw (no', delete_loop) at h)
        ]
      ]

  -- Deleting the backups of a device leaves every file that is not such a backup, and adds none of
  -- those, also where deletions fail.
  pub delete_backups_for_device_keep :
      (device : Text) (w : World) (other : Text)
      → is_backup_of device other ≡ false
      → Listed S other (delete_backups_for_device device w).1 ↔ Listed S other w
  unfolding delete_backups_for_device
  delete_backups_for_device_keep device w other keep =
      let names : List Text = sys.storage.list_backup_file_names w.storage in
      let (back, on) = delete_loop-Listed device names false other w in
      elim (Bool-cases (delete_loop device names false w).0) [
        | inl bad ↦ rw (bad, delete_backups_for_device) (back, on keep)
        | inr good ↦ rw (good, delete_backups_for_device) (back, on keep)
      ]

  -- When deleting the backups of a device answers that it succeeded, no backup of the device is left
  -- in the list.
  pub delete_backups_for_device_gone :
      (device : Text) (w w' : World) (other : Text)
      → delete_backups_for_device device w ≡ (ok tt, w')
      → is_backup_of device other ≡ true
      → ¬ Listed S other w'
  unfolding delete_backups_for_device
  delete_backups_for_device_gone device w w' other h hit left =
      let names : List Text = sys.storage.list_backup_file_names w.storage in
      let (back, on) = delete_loop-Listed device names false other w in
      elim (Bool-cases (delete_loop device names false w).0) [
        | inl bad ↦ absurd (ground arith)
        | inr good ↦
            let end : (delete_loop device names false w).1 ≡ w' = ground arith in
            let left' : Listed S other (delete_loop device names false w).1 =
              subst (Listed S other) (sym end) left in
            delete_loop-gone device names false other w good (back left') hit left'
      ]
