-- ===== src/Backup/Create/Outdated.antt =====
-- Which files the removal of outdated backups touches.
use sealvault.Prelude.{
  Text, ◌≡◌, ◌≢◌, refl, ◌↔◌, ◌<◌, true, false, List, [], ◌∷◌, Elem, arith, inl, inr, ltb, text_eq,
  text_eq→≡, text_eq_refl, Bool-cases, ◌∙◌, subst, sym, ap, lt→ltb,
}
use mathlib.Core.Bool.{false≢true, ◌&&◌}
use sealvault.Prelude.Result.{ok, Result-cases}
use sealvault.Backup.FileName
use sealvault.Backup.FileName.{BackupMetadata, MetadataFromFileName}
use sealvault.Backup.Create.{should_delete, delete_backup, remove_loop, remove_outdated_backups}
use sealvault.System.{System, StorageImpl, World}

-- What the storage trait documents: a deletion that succeeds takes the file off the list and
-- leaves the others, and one that fails changes nothing.
pub record IsStorage (S : StorageImpl) : Type 0 where
  pub gone :
      (name : Text) (s t : S.State)
      → S.delete_backup name s ≡ (true, t)
      → Elem name (S.list_backup_file_names t)
      → ⊥
  pub others :
      (name other : Text) (s t : S.State)
      → S.delete_backup name s ≡ (true, t)
      → other ≢ name
      → Elem other (S.list_backup_file_names t) ↔ Elem other (S.list_backup_file_names s)
  pub failed :
      (name : Text) (s t : S.State)
      → S.delete_backup name s ≡ (false, t)
      → S.list_backup_file_names t ≡ S.list_backup_file_names s

module _ ⦃sys : System⦄ where
  -- A file is deleted just when its name is that of a backup which this device made with an
  -- earlier version.
  pub should_delete_iff :
      (name : Text) (current : BackupMetadata)
      → (should_delete name current ≡ true) ↔ (
          (meta : MetadataFromFileName) × (FileName.from_str sys.unicode_digit name ≡ ok meta)
          × (meta.device_id ≡ current.device_id)
          × (meta.backup_version < current.backup_version))
  unfolding should_delete
  should_delete_iff name current = elim (Result-cases (FileName.from_str sys.unicode_digit name)) [
    | inl (e, p) ↦
        (λ h. absurd (false≢true (rw (p, should_delete) at h)), λ (m, q, _, _). absurd (cc (p, q)))
    | inr (m, p) ↦ (
      λ h.
          let both : (text_eq m.device_id current.device_id
                && ltb m.backup_version current.backup_version)
              ≡ true =
            rw (p, should_delete) at h in
          (m, p, text_eq→≡ m.device_id current.device_id (ground arith), ground arith),
      λ (m', q, same, lt).
          rw (q, same, should_delete)
            (ground (arith, text_eq_refl current.device_id, lt→ltb _ _ lt)),
    )
  ]

  remove_loop-frame :
      (current : BackupMetadata) (names : List Text) (w : World)
      → ((remove_loop current names w).db ≡ w.db)
        × ((remove_loop current names w).keychain ≡ w.keychain)
  unfolding remove_loop
  remove_loop-frame current [] w = (refl, refl)
  remove_loop-frame current (name ∷ names) w = elim (Bool-cases (should_delete name current)) [
    | inl yes' ↦ rw (yes', remove_loop) (remove_loop-frame current names _)
    | inr no' ↦ rw (no', remove_loop) (remove_loop-frame current names w)
  ]

module _ ⦃sys : System⦄ (S : IsStorage sys.storage) where
  abbrev pub Listed : Text → World → Type 0
  Listed name w = Elem name (sys.storage.list_backup_file_names w.storage)

  -- Any other file stays, whether or not the deletion succeeds, and no file comes up.
  pub delete_backup-Listed :
      (name other : Text) (w : World)
      → (Listed other (delete_backup name w).1 → Listed other w)
        × (other ≢ name → Listed other w → Listed other (delete_backup name w).1)
  unfolding delete_backup
  delete_backup-Listed name other w =
      let s : sys.storage.State = w.storage in
      let t : sys.storage.State = (sys.storage.delete_backup name s).1 in
      elim (Bool-cases (sys.storage.delete_backup name s).0) [
        | inl done ↦
            let e : sys.storage.delete_backup name s ≡ (true, t) = λ i. (done i, t) in
            (
              λ h. elim (Bool-cases (text_eq other name)) [
                | inl same ↦ absurd (
                    S.gone name s t e (
                      subst (λ n. Elem n (sys.storage.list_backup_file_names t))
                        (text_eq→≡ other name same) h))
                | inr differ ↦
                    (S.others name other s t e (λ q. cc (differ, q, text_eq_refl name))).0 h
              ],
              λ differ h. (S.others name other s t e differ).1 h,
            )
        | inr kept ↦
            let e : sys.storage.delete_backup name s ≡ (false, t) = λ i. (kept i, t) in
            let same : sys.storage.list_backup_file_names t ≡ sys.storage.list_backup_file_names s =
              S.failed name s t e in
            (λ h. subst (Elem other) same h, λ _ h. subst (Elem other) (sym same) h)
      ]

  remove_loop-Listed :
      (current : BackupMetadata) (names : List Text) (other : Text) (w : World)
      → (Listed other (remove_loop current names w) → Listed other w)
        × (should_delete other current ≡ false
            → Listed other w
            → Listed other (remove_loop current names w))
  unfolding remove_loop
  remove_loop-Listed current [] other w = (λ h. h, λ _ h. h)
  remove_loop-Listed current (name ∷ names) other w =
      elim (Bool-cases (should_delete name current)) [
        | inl hit ↦
            let w' : World = (delete_backup name w).1 in
            let (back, on) = remove_loop-Listed current names other w' in
            let (back1, on1) = delete_backup-Listed name other w in
            rw (hit, remove_loop)
              (λ h. back1 (back h), λ keep h. on keep (on1 (λ q. cc (q, hit, keep)) h))
        | inr miss ↦ rw (miss, remove_loop) (remove_loop-Listed current names other w)
      ]

  remove_loop-gone :
      ((name : Text) (s : sys.storage.State) → (sys.storage.delete_backup name s).0 ≡ true)
      → (current : BackupMetadata) (names : List Text) (other : Text) (w : World) → Elem other names
      → should_delete other current ≡ true
      → Listed other (remove_loop current names w)
      → ⊥
  unfolding remove_loop delete_backup
  remove_loop-gone works current [] other w m hit h = absurd m
  remove_loop-gone works current (name ∷ names) other w (inl p) hit h =
      let w' : World = (delete_backup name w).1 in
      S.gone name w.storage w'.storage (λ i. (works name w.storage i, w'.storage))
        (subst (λ n. Listed n w') p
          ((remove_loop-Listed current names other w').0
            (rw (ap (λ n. should_delete n current) (sym p) ∙ hit, remove_loop) at h)))
  remove_loop-gone works current (name ∷ names) other w (inr m) hit h =
      elim (Bool-cases (should_delete name current)) [
        | inl yes' ↦
            remove_loop-gone works current names other _ m hit (rw (yes', remove_loop) at h)
        | inr no' ↦ remove_loop-gone works current names other w m hit (rw (no', remove_loop) at h)
      ]

  -- Removing the outdated backups neither removes nor adds a file that is not to be deleted,
  -- whether or not the deletions succeed.
  pub remove_outdated_backups_keep :
      (current : BackupMetadata) (w : World) (other : Text)
      → should_delete other current ≡ false
      → Listed other (remove_outdated_backups current w).1 ↔ Listed other w
  unfolding remove_outdated_backups
  remove_outdated_backups_keep current w other keep =
      let (back, on) =
        remove_loop-Listed current (sys.storage.list_backup_file_names w.storage) other w in
      (back, on keep)

  -- Where every deletion succeeds, the files that are listed after the outdated backups are removed
  -- are just the listed ones that were not to be deleted.
  pub remove_outdated_backups_exact :
      ((name : Text) (s : sys.storage.State) → (sys.storage.delete_backup name s).0 ≡ true)
      → (current : BackupMetadata) (w : World) (other : Text)
      → Listed other (remove_outdated_backups current w).1
        ↔ (Listed other w × (should_delete other current ≡ false))
  unfolding remove_outdated_backups
  remove_outdated_backups_exact works current w other =
      let names : List Text = sys.storage.list_backup_file_names w.storage in
      let (back, on) = remove_loop-Listed current names other w in
      (
        λ h. (
          back h,
          elim (Bool-cases (should_delete other current)) [
            | inl hit ↦ absurd (remove_loop-gone works current names other w (back h) hit h)
            | inr miss ↦ miss
          ],
        ),
        λ (h, miss). on miss h,
      )
