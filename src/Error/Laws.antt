-- ===== src/Error/Laws.antt =====
-- The conversions between the errors lose nothing that a caller acts on, and what reaches the
-- user interface is vetted.
use sealvault.Prelude.{String, ◌≡◌, refl, ◌⊎◌, inl, inr, true, Bool-cases}
use sealvault.Prelude.Int.{ℤ}
use sealvault.Error.{
  Error, CoreError, BackupError, is_user_error, to_core_error, from_core_error,
  message_for_ui_callback, to_backup_error, from_backup_error, backup_to_core_error,
  core_to_backup_error,
}

-- An error of the language interface survives the way through the application's error type, and
-- the way through the backup error type and back.
pub core_error_round_trip :
    (e : CoreError)
    → (to_core_error (from_core_error e) ≡ e)
      × (core_to_backup_error e ≡ BackupError.error e)
      × (backup_to_core_error (core_to_backup_error e) ≡ e)
unfolding to_core_error from_core_error to_backup_error from_backup_error core_to_backup_error
    backup_to_core_error
core_error_round_trip (CoreError.retriable e) = (refl, refl, refl)
core_error_round_trip (CoreError.fatal e) = (refl, refl, refl)
core_error_round_trip (CoreError.user e) = (refl, refl, refl)

-- The texts of an error that may be shown to the user: an explanation meant for the user, or the
-- message of a JSON-RPC error that is recognised as one.
pub data Shown : Error → String → Type 0 where
  explanation : {m : String} → Shown (Error.user m) m
  rpc_message : {c : ℤ} {m : String} → is_user_error m ≡ true → Shown (Error.json_rpc c m) m

-- The text for the user interface is an explanation meant for the user, a JSON-RPC message about
-- funds, gas or an underpriced transaction, or one of two fixed sentences: no other error's text
-- gets through.
pub message_for_ui_callback_vetted :
    (e : Error)
    → Shown e (message_for_ui_callback e)
      ⊎ (message_for_ui_callback e ≡ "An unexpected error occurred. Please try again!")
      ⊎ (message_for_ui_callback e
          ≡ "An unexpected error occurred. Please restart the application and try again!")
unfolding message_for_ui_callback to_core_error
message_for_ui_callback_vetted (Error.json_rpc c m) = elim (Bool-cases (is_user_error m)) [
  | inl h ↦ inl (rw h (rpc_message h))
  | inr h ↦ inr (inl (rw h))
]
message_for_ui_callback_vetted (Error.retriable e) = inr (inl refl)
message_for_ui_callback_vetted (Error.fatal e) = inr (inr refl)
message_for_ui_callback_vetted (Error.user e) = inl explanation
