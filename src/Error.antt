-- ===== src/Error.antt =====
-- core/src/error.rs, `CoreError` of core/src/dto.rs and core/src/backup/backup_error.rs: the
-- errors of the application, of the language interface and of backups, with their conversions.
-- A message that quotes a foreign library's error keeps only the words of this program.
pub mod Laws
use Prim.Native.String.{◌++◌ as ◌<>◌}
use sealvault.Prelude.{
  String, Bool, true, false, ◌||◌, ◌&&◌, [], ◌∷◌, Text, codes, ◌==◌, if◌then◌else◌,
}
use sealvault.Prelude.Int.{ℤ}

pub data Error : Type 0 where
  json_rpc : ℤ → String → Error
  retriable : String → Error
  fatal : String → Error
  user : String → Error

pub data CoreError : Type 0 where
  retriable : String → CoreError
  fatal : String → CoreError
  user : String → CoreError

pub data BackupError : Type 0 where
  backup_disabled : BackupError
  failed_to_store_backup : BackupError
  failed_to_fetch_backup : BackupError
  failed_to_delete_backup : BackupError
  invalid_password : BackupError
  kdf_secret_not_available : BackupError
  error : CoreError → BackupError

starts_with : Text → Text → Bool
starts_with [] s = true
starts_with (p ∷ ps) [] = false
starts_with (p ∷ ps) (c ∷ s) = p == c && starts_with ps s

-- A search for a literal pattern.
pub contains : Text → Text → Bool
contains p [] = starts_with p []
contains p (c ∷ s) = starts_with p (c ∷ s) || contains p s

-- `JSONRPC_USER_ERROR_REGEX.is_match`
unfoldable pub is_user_error : String → Bool
unfolding contains starts_with
is_user_error message =
    let s = codes message in
    contains (codes "funds") s || (contains (codes "gas") s || contains (codes "underpriced") s)

-- `impl From<Error> for CoreError`; the text of the code, of the crate `jsonrpsee`, is left out.
unfoldable pub to_core_error : Error → CoreError
to_core_error (Error.fatal e) = CoreError.fatal e
to_core_error (Error.user e) = CoreError.user e
to_core_error (Error.retriable e) = CoreError.retriable e
to_core_error (Error.json_rpc code message) =
    if is_user_error message
    then CoreError.user message
    else CoreError.retriable ("JSON-RPC error message '" <> (message <> "'"))

-- `impl From<CoreError> for Error`
unfoldable pub from_core_error : CoreError → Error
from_core_error (CoreError.retriable e) = Error.retriable e
from_core_error (CoreError.fatal e) = Error.fatal e
from_core_error (CoreError.user e) = Error.user e

-- the arms of `message_for_ui_callback`
show_core_error : CoreError → String
show_core_error (CoreError.user explanation) = explanation
show_core_error (CoreError.retriable e) = "An unexpected error occurred. Please try again!"
show_core_error (CoreError.fatal e) =
    "An unexpected error occurred. Please restart the application and try again!"

unfoldable pub message_for_ui_callback : Error → String
unfolding show_core_error
message_for_ui_callback e = show_core_error (to_core_error e)

-- `impl Display for CoreError`
core_error_message : CoreError → String
core_error_message (CoreError.retriable e) = "Retriable Error: '" <> (e <> "'")
core_error_message (CoreError.fatal e) = "Fatal Error: '" <> (e <> "'")
core_error_message (CoreError.user explanation) = explanation

-- `impl Display for BackupError`
backup_error_message : BackupError → String
backup_error_message BackupError.backup_disabled = "Backup is disabled."
backup_error_message BackupError.failed_to_store_backup =
    "Failed to put backup file into backup storage."
backup_error_message BackupError.failed_to_fetch_backup =
    "Failed to fetch the backup file from backup storage."
backup_error_message BackupError.failed_to_delete_backup =
    "Failed to delete a backup file from backup storage."
backup_error_message BackupError.invalid_password = "Invalid password for backup."
backup_error_message BackupError.kdf_secret_not_available =
    "The KDF secret is not available from the keychain."
backup_error_message (BackupError.error e) = core_error_message e

-- `impl From<Error> for BackupError`
unfoldable pub to_backup_error : Error → BackupError
to_backup_error e = BackupError.error (to_core_error e)

-- `impl From<BackupError> for Error`
unfoldable pub from_backup_error : BackupError → Error
unfolding backup_error_message core_error_message
from_backup_error (BackupError.error e) = from_core_error e
from_backup_error e = Error.retriable (backup_error_message e)

-- `impl From<BackupError> for CoreError`
unfoldable pub backup_to_core_error : BackupError → CoreError
backup_to_core_error e = to_core_error (from_backup_error e)

-- `impl From<CoreError> for BackupError`
unfoldable pub core_to_backup_error : CoreError → BackupError
core_to_backup_error e = to_backup_error (from_core_error e)
