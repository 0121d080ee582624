-- ===== src/Tests/Values.antt =====
-- Examples of the properties of errors, keys, passwords, settings and file names.
use sealvault.Prelude.{
  ℕ, zero, suc, All, inl, inr, ◌≡◌, ◌⊎◌, refl, Text, true, Option, some, List, [], ◌∷◌, ◌++◌, codes,
  arith,
}
use sealvault.Prelude.Decimal
use sealvault.Prelude.Int.{pos}
use sealvault.Prelude.Result.{ok, err}
use sealvault.Error.{
  Error, CoreError, BackupError, to_core_error, from_core_error, message_for_ui_callback,
  backup_to_core_error, core_to_backup_error,
}
use sealvault.Error.Laws.{Shown, core_error_round_trip, message_for_ui_callback_vetted}
use sealvault.Encryption.KeyName.{KeyName, as_ref, from_str-as_ref}
use sealvault.Encryption.KeyName
use sealvault.Encryption.KeyMaterial
use sealvault.Encryption.EncryptionOutput.{
  EncryptionOutput, IsOutput, to_vec, try_from, vector_too_short_error, try_from-to_vec,
  try_from-short, try_from-long,
}
use sealvault.Encryption.BackupPassword
use sealvault.Encryption.BackupPassword.{
  display_to_user, parse_loop, decode_symbol, decode_upper, is_symbol,
}
use sealvault.Encryption.BackupPassword.Laws.{
  IsPassword, decoded, outcome, ascii_upper, from_str-eq-outcome, from_str-IsPassword,
  from_str-display_to_user,
}
use sealvault.Db.Settings.{fetch_backup_version, increment_backup_version}
use sealvault.Db.Settings.Laws.{fetch_backup_version-increment}
use sealvault.Backup.FileName
use sealvault.Backup.FileName.{BackupScheme, captures, is_name_char, get_backup_file_name}
use sealvault.Backup.FileName.Laws.{IsName, from_str-get_backup_file_name}
use sealvault.Backup.Latest.{
  Candidate, cmp_candidates, candidates, sort_candidates, last_candidate, latest,
}
use sealvault.Backup.Latest.Newest.{NotNewer}
use sealvault.Backup.Latest.Laws.{IsCandidate, latest-IsCandidate, latest-NotNewer}
use sealvault.Tests.Toy.{repeat, toy_db}

core_error_round_trip_example :
    (to_core_error (from_core_error (CoreError.user "text")) ≡ CoreError.user "text")
    × (core_to_backup_error (CoreError.user "text") ≡ BackupError.error (CoreError.user "text"))
    × (backup_to_core_error (core_to_backup_error (CoreError.user "text")) ≡ CoreError.user "text")
core_error_round_trip_example = core_error_round_trip (CoreError.user "text")

abbrev rpc : Error
rpc = Error.json_rpc (pos 3) "insufficient funds"

message_for_ui_callback_vetted_example :
    Shown rpc (message_for_ui_callback rpc)
    ⊎ (message_for_ui_callback rpc ≡ "An unexpected error occurred. Please try again!")
    ⊎ (message_for_ui_callback rpc
        ≡ "An unexpected error occurred. Please restart the application and try again!")
message_for_ui_callback_vetted_example = message_for_ui_callback_vetted rpc

from_str-as_ref_example : KeyName.from_str (as_ref KeyName.kdf_secret) ≡ some KeyName.kdf_secret
from_str-as_ref_example = from_str-as_ref KeyName.kdf_secret

abbrev output : EncryptionOutput
output = record { cipher_text = repeat 17 1; nonce = repeat 24 2 }

try_from-to_vec_example : try_from (to_vec output) ≡ ok output
try_from-to_vec_example =
    try_from-to_vec output (record { nonce_len = refl; cipher_len = omega arith })

try_from-short_example : try_from (repeat 40 1) ≡ err vector_too_short_error
try_from-short_example = try_from-short (repeat 40 1) (omega arith)

try_from-long_example :
    (o : EncryptionOutput) × (try_from (repeat 41 1) ≡ ok o) × (to_vec o ≡ repeat 41 1) × IsOutput o
try_from-long_example = try_from-long (repeat 41 1) (omega arith)

abbrev up : ℕ → Option ℕ
up c = some (ascii_upper c)

abbrev typed : Text
typed = codes "o12-3x"

from_str-eq-outcome_example : BackupPassword.from_str up typed ≡ outcome (decoded up typed)
from_str-eq-outcome_example = from_str-eq-outcome up typed

from_str-IsPassword_example : IsPassword (repeat 20 b'3')
unfolding BackupPassword.from_str parse_loop decode_symbol decode_upper is_symbol KeyMaterial.new
from_str-IsPassword_example = from_str-IsPassword up (repeat 20 b'3') (repeat 20 b'3') refl

All-repeat : (n : ℕ) → All (λ c. is_symbol c ≡ true) (repeat n b'3')
unfolding is_symbol
All-repeat zero = tt
All-repeat (suc n) = (refl, All-repeat n)

password : IsPassword (repeat 20 b'3')
password = record { len = refl; symbols = All-repeat 20 }

from_str-display_to_user_example :
    BackupPassword.from_str up (display_to_user (repeat 20 b'3')) ≡ ok (repeat 20 b'3')
from_str-display_to_user_example =
    from_str-display_to_user up (λ c lt. refl) (repeat 20 b'3') password

fetch_backup_version-increment_example :
    fetch_backup_version (increment_backup_version (toy_db 6)) ≡ ok 7
unfolding fetch_backup_version
fetch_backup_version-increment_example =
    fetch_backup_version-increment (toy_db 6) 6 refl (omega arith)

ios-IsName : IsName (codes "ios")
unfolding is_name_char
ios-IsName = record { inhabited = λ p. cc; chars = (refl, (refl, (refl, tt))) }

from_str-get_backup_file_name_example :
    FileName.from_str Decimal.is_digit
      (get_backup_file_name BackupScheme.v1 (codes "ios") (pos 1000) (codes "ios") 7)
    ≡ ok (record {
      timestamp = pos 1000;
      os = codes "ios";
      device_id = codes "ios";
      backup_version = 7;
    })
from_str-get_backup_file_name_example =
    from_str-get_backup_file_name Decimal.is_digit (λ c lt. refl) BackupScheme.v1 (codes "ios")
      (codes "ios") 1000 7 ios-IsName ios-IsName (omega arith) (omega arith)

abbrev file : ℕ → Text
file v = codes "sealvault_backup_v1_ios_1000_d-1_" ++ (Decimal.show v ++ codes ".zip")

abbrev files : List Text
files = file 7 ∷ (codes "junk" ∷ (file 8 ∷ (file 3 ∷ [])))

abbrev candidate : ℕ → Candidate
candidate v = (
  record { timestamp = pos 1000; os = codes "ios"; device_id = codes "d-1"; backup_version = v },
  file v,
)

latest-IsCandidate_example : IsCandidate Decimal.is_digit (codes "ios") files (candidate 8)
unfolding latest candidates sort_candidates last_candidate FileName.from_str captures FileName.field
    Decimal.show Decimal.read cmp_candidates
latest-IsCandidate_example =
    latest-IsCandidate Decimal.is_digit (codes "ios") files (candidate 8) refl

latest-NotNewer_example :
    (m : Candidate) × (latest Decimal.is_digit (codes "ios") files ≡ some m)
    × NotNewer (candidate 3).0 m.0
unfolding FileName.from_str captures FileName.field Decimal.show Decimal.read
latest-NotNewer_example =
    latest-NotNewer Decimal.is_digit (codes "ios") files (candidate 3)
      (record { listed = inr (inr (inr (inl refl))); parses = refl; same_os = refl })
