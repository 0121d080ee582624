-- ===== src/Backup/Latest.antt =====
-- `find_latest_backup_inner` of core/src/backup/restore.rs: the latest backup for this operating
-- system, by time, version and device; and `last_uploaded_backup` of metadata.rs.
pub mod Order
pub mod Newest
pub mod Laws
use Prim.Native.Nat.{compare, Ordering}
use sealvault.Prelude.{
  ℕ, Text, Bool, true, false, Option, none, some, List, [], ◌∷◌, text_eq, if◌then◌else◌,
}
use sealvault.Prelude.Int.{ℤ, pos, negsuc}
use sealvault.Prelude.Result.{Result, ok, err}
use sealvault.Prelude.Exec.{◌>>=◌, ◌>>◌, pure, raise, lift, gets}
use sealvault.Error.{Error, BackupError}
use sealvault.Db.Settings.{fetch_backup_timestamp, fetch_backup_version}
use sealvault.Backup.FileName
use sealvault.Backup.FileName.{
  BackupScheme, BackupMetadata, MetadataFromFileName, default_os, get_backup_file_name,
}
use sealvault.System.{System, World, App, BackupApp, as_backup, on_os, query, transaction}

-- `Ordering::then`
abbrev pub then_with : Ordering → Ordering → Ordering
then_with Ordering.eq o = o
then_with Ordering.lt o = Ordering.lt
then_with Ordering.gt o = Ordering.gt

-- `Ord` of `i64`
abbrev pub cmp_int : ℤ → ℤ → Ordering
cmp_int (pos a) (pos b) = compare a b
cmp_int (pos a) (negsuc b) = Ordering.gt
cmp_int (negsuc a) (pos b) = Ordering.lt
cmp_int (negsuc a) (negsuc b) = compare b a

-- `Ord` of `String`
abbrev pub cmp_text : Text → Text → Ordering
cmp_text [] [] = Ordering.eq
cmp_text [] (_ ∷ _) = Ordering.lt
cmp_text (_ ∷ _) [] = Ordering.gt
cmp_text (a ∷ s) (b ∷ t) = then_with (compare a b) (cmp_text s t)

-- A parsed file name with the name itself.
abbrev pub Candidate : Type 0
Candidate = MetadataFromFileName × Text

-- The closure that `sort_by` is given.
unfoldable pub cmp_candidates : Candidate → Candidate → Ordering
cmp_candidates (a, _) (b, _) =
    then_with
      (then_with (cmp_int a.timestamp b.timestamp) (compare a.backup_version b.backup_version))
      (cmp_text a.device_id b.device_id)

-- `sort_by` is stable: an earlier entry stands before the later ones that are equal to it.
insert_sorted : Candidate → List Candidate → List Candidate
insert_sorted x [] = x ∷ []
insert_sorted x (y ∷ ys) =
    let rest = insert_sorted x ys in
    elim (cmp_candidates x y) [ Ordering.gt ↦ y ∷ rest | _ ↦ x ∷ (y ∷ ys) ]

unfoldable pub sort_candidates : List Candidate → List Candidate
unfolding insert_sorted
sort_candidates [] = []
sort_candidates (x ∷ xs) = insert_sorted x (sort_candidates xs)

-- `metas.swap_remove(metas.len() - 1)`, if there is one
unfoldable pub last_candidate : List Candidate → Option Candidate
last_candidate [] = none
last_candidate (x ∷ []) = some x
last_candidate (x ∷ (y ∷ ys)) = last_candidate (y ∷ ys)

module _ (nd : ℕ → Bool) (os : Text) where
  -- The loop over the file names: those that parse and were made on this system.
  unfoldable pub candidates : List Text → List Candidate
  candidates [] = []
  candidates (name ∷ names) =
      let rest = candidates names in
      elim (FileName.from_str nd name) [
        | err e ↦ rest
        | ok meta ↦ if text_eq meta.os os then (meta, name) ∷ rest else rest
      ]

  unfoldable pub latest : List Text → Option Candidate
  latest names = last_candidate (sort_candidates (candidates names))

pub record BackupRestoreData : Type 0 where
  pub timestamp : ℤ
  pub device_name : Text
  pub backup_file_name : Text

module _ ⦃sys : System⦄ where
  -- `backup_metadata_from_zip`
  unfoldable pub backup_metadata_from_zip : Text → App BackupMetadata
  backup_metadata_from_zip archive = do
    bytes ← lift (sys.unzip_metadata archive)
    lift (sys.metadata_from_slice bytes)

  -- `copy_from_storage` into a fresh directory
  unfoldable pub fetch_archive : Text → BackupApp Text
  fetch_archive name = do
    as_backup (on_os sys.os.file_access)
    copied ← gets (λ w. sys.storage.copy_from_storage name w.storage)
    elim copied [ none ↦ raise BackupError.failed_to_fetch_backup | some archive ↦ pure archive ]

  restore_data : Option Candidate → BackupApp (Option BackupRestoreData)
  restore_data none = pure none
  restore_data (some (_, name)) = do
    archive ← fetch_archive name
    metadata ← as_backup (backup_metadata_from_zip archive)
    pure (
        some (record {
          timestamp = metadata.timestamp;
          device_name = metadata.device_name;
          backup_file_name = name;
        }))

  -- `find_latest_backup_inner`
  unfoldable pub find_latest_backup_inner : BackupApp (Option BackupRestoreData)
  unfolding restore_data
  find_latest_backup_inner = do
    names ← gets (λ w. sys.storage.list_backup_file_names w.storage)
    restore_data (latest sys.unicode_digit (default_os sys.os.os_name) names)

  uploaded_at : Text → Option Text → ℕ → App (Option ℤ)
  uploaded_at device_id none version = pure none
  uploaded_at device_id (some datestamp) version = do
    timestamp ← lift (sys.os.parse_rfc3339 datestamp)
    let name : Text =
        get_backup_file_name BackupScheme.v1 (default_os sys.os.os_name) timestamp device_id version
    uploaded ← gets (λ w. sys.storage.is_uploaded name w.storage)
    pure (if uploaded then some timestamp else none)

  -- `last_uploaded_backup`
  unfoldable pub last_uploaded_backup : Text → App (Option ℤ)
  unfolding uploaded_at
  last_uploaded_backup device_id = do
    (version, datestamp) ← transaction (do
      timestamp ← query fetch_backup_timestamp
      version ← query fetch_backup_version
      pure (version, timestamp))
    uploaded_at device_id datestamp version
