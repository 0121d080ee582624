-- ===== src/Backup/FileName.antt =====
-- core/src/backup/metadata.rs, backup_scheme.rs and core/src/device.rs: backup metadata, the file
-- names of backups, and the device and system names in them. The regular expression is written
-- out as a matcher; its `\d` covers the decimal digits of all scripts, which is the parameter `nd`.
pub mod Laws
use sealvault.Prelude.{
  ℕ, ◌+◌, Text, Bool, true, false, ◌&&◌, ◌||◌, Option, none, some, [], ◌∷◌, ◌++◌, ◌==◌, leb, codes,
  if◌then◌else◌,
}
use sealvault.Prelude.Int.{ℤ, pos, negsuc}
use sealvault.Prelude.Decimal
use sealvault.Prelude.Result.{Result, ok, err, ok_or, ◌>>=◌}
use sealvault.Error.{Error}

pub data BackupScheme : Type 0 where
  v1 : BackupScheme

-- The derived `Display`, in lower case.
unfoldable pub show_scheme : BackupScheme → Text
show_scheme BackupScheme.v1 = codes "v1"

-- The class `[A-Za-z0-9-]`.
unfoldable pub is_name_char : ℕ → Bool
is_name_char c =
    (leb b'A' c && leb c b'Z') || ((leb b'a' c && leb c b'z') || (Decimal.is_digit c || c == b'-'))

all_of : (ℕ → Bool) → Text → Bool
all_of p [] = true
all_of p (c ∷ s) = p c && all_of p s

-- `DeviceIdentifier::try_from`, with `^[A-Za-z0-9-]+$`
unfoldable pub device_id_try_from : Text → Result Error Text
unfolding all_of is_name_char
device_id_try_from [] = err (Error.fatal "Invalid device identifier: '{value}'")
device_id_try_from (c ∷ s) =
    if all_of is_name_char (c ∷ s)
    then ok (c ∷ s)
    else err (Error.fatal "Invalid device identifier: '{value}'")

-- `DeviceName::try_from`
unfoldable pub device_name_try_from : Text → Result Error Text
device_name_try_from [] = err (Error.fatal "Invalid device name: '{value}'")
device_name_try_from (c ∷ s) = ok (c ∷ s)

-- `OperatingSystem::default`, for the name that the standard library gives
unfoldable pub default_os : Text → Text
default_os [] = codes "unknown-os"
default_os (c ∷ s) = c ∷ s

-- `OperatingSystem::from_str`
unfoldable pub os_from_str : Text → Result Error Text
os_from_str [] = err (Error.retriable "Empty OS string")
os_from_str (c ∷ s) = ok (c ∷ s)

pub record BackupMetadata : Type 0 where
  pub backup_scheme : BackupScheme
  pub backup_version : ℕ
  pub timestamp : ℤ
  pub device_id : Text
  pub device_name : Text
  pub operating_system : Text
  pub kdf_nonce : Text

pub record MetadataFromFileName : Type 0 where
  pub timestamp : ℤ
  pub os : Text
  pub device_id : Text
  pub backup_version : ℕ

show_int : ℤ → Text
show_int (pos n) = Decimal.show n
show_int (negsuc n) = b'-' ∷ Decimal.show (n + 1)

-- `get_backup_file_name`
unfoldable pub get_backup_file_name : BackupScheme → Text → ℤ → Text → ℕ → Text
unfolding show_int show_scheme
get_backup_file_name scheme os timestamp device_id version =
    codes "sealvault_backup_"
    ++ (show_scheme scheme
        ++ (b'_'
            ∷ (os
                ++ (b'_'
                    ∷ (show_int timestamp
                        ++ (b'_'
                            ∷ (device_id ++ (b'_' ∷ (Decimal.show version ++ codes ".zip")))))))))

-- `BackupMetadata::backup_file_name`
unfoldable pub backup_file_name : BackupMetadata → Text
backup_file_name m =
    get_backup_file_name m.backup_scheme m.operating_system m.timestamp m.device_id m.backup_version

-- A literal at the front of the text.
unfoldable pub literal : Text → Text → Option Text
literal [] s = some s
literal (p ∷ ps) [] = none
literal (p ∷ ps) (c ∷ s) = let rest = literal ps s in if p == c then rest else none

-- The longest front of a class, and the rest.
unfoldable pub span : (ℕ → Bool) → Text → Text × Text
span p [] = ([], [])
span p (c ∷ s) = let (a, b) = span p s in if p c then (c ∷ a, b) else ([], c ∷ s)

nonempty : Text × Text → Option (Text × Text)
nonempty ([], rest) = none
nonempty (c ∷ a, rest) = some (c ∷ a, rest)

-- A repeated class, `+`: at least one character. Behind a class the expression has a literal that
-- is not in the class, so the longest front is the only match.
unfoldable pub field : (ℕ → Bool) → Text → Option (Text × Text)
unfolding span nonempty
field p s = nonempty (span p s)

-- The named groups of `BACKUP_FILE_NAME_REGEX`.
pub record Captures : Type 0 where
  pub scheme : Text
  pub os : Text
  pub timestamp : Text
  pub device_id : Text
  pub version : Text

invalid : Error
invalid = Error.fatal "Invalid backup file name format"

end_of_text : Text → Option (Unit {0})
end_of_text [] = some tt
end_of_text (c ∷ s) = none

-- `s.parse::<i64>()`, for a group of decimal digits
parse_i64 : Text → Result Error ℤ
parse_i64 s = elim (Decimal.read s) [
  | none ↦ err (Error.retriable "Failed to parse int")
  | some n ↦ ok (pos n)
]

-- `BackupVersion::from_str`, for a group of decimal digits
parse_version : Text → Result Error ℕ
parse_version s = elim (Decimal.read s) [
  | none ↦ err (Error.retriable "Failed to parse str to backup version")
  | some n ↦ ok n
]

module _ (nd : ℕ → Bool) where
  -- `BACKUP_FILE_NAME_REGEX.captures`
  unfoldable pub captures : Text → Result Error Captures
  unfolding literal invalid end_of_text
  captures s0 = do
    s1 ← ok_or invalid (literal (codes "sealvault_backup_") s0)
    (scheme, s2) ← ok_or invalid (field is_name_char s1)
    s3 ← ok_or invalid (literal (codes "_") s2)
    (os, s4) ← ok_or invalid (field is_name_char s3)
    s5 ← ok_or invalid (literal (codes "_") s4)
    (timestamp, s6) ← ok_or invalid (field nd s5)
    s7 ← ok_or invalid (literal (codes "_") s6)
    (device_id, s8) ← ok_or invalid (field is_name_char s7)
    s9 ← ok_or invalid (literal (codes "_") s8)
    (version, s10) ← ok_or invalid (field nd s9)
    s11 ← ok_or invalid (literal (codes ".zip") s10)
    end ← ok_or invalid (end_of_text s11)
    ok (record {
      scheme = scheme;
      os = os;
      timestamp = timestamp;
      device_id = device_id;
      version = version;
    })

  -- `MetadataFromFileName::from_str`
  unfoldable pub from_str : Text → Result Error MetadataFromFileName
  unfolding parse_i64 parse_version os_from_str device_id_try_from
  from_str file_name = do
    groups ← captures file_name
    timestamp ← parse_i64 groups.timestamp
    os ← os_from_str groups.os
    device_id ← device_id_try_from groups.device_id
    version ← parse_version groups.version
    ok (record { timestamp = timestamp; os = os; device_id = device_id; backup_version = version })
