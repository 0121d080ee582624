-- ===== src/Tests/Toy.antt =====
-- A system in memory: files by name, a clock that stands, and a cipher whose tag is the front of
-- the key. Its database file holds the backup version alone.
use sealvault.Prelude.{
  ℕ, zero, suc, ◌-◌, Text, true, Option, none, some, List, [], ◌∷◌, ◌++◌, length, take, drop, codes,
  text_eq, if◌then◌else◌,
}
use sealvault.Prelude.Int.{ℤ, pos}
use sealvault.Prelude.Result.{Result, ok, err}
use sealvault.Error.{Error}
use sealvault.Encryption.Keychain.InMemory.{InMemoryKeychain, in_memory_keychain}
use sealvault.Db.{Db, LocalSettings}
use sealvault.Backup.FileName.{BackupScheme, BackupMetadata}
use sealvault.Prelude.Decimal
use sealvault.Encryption.KeyName.{KeyName}
use sealvault.Backup.Create.{Device}
use sealvault.Wallet.{Wallet}
use sealvault.System.{System, World, Crypto, StorageImpl, OsImpl}

abbrev pub repeat : ℕ → ℕ → Text
repeat zero c = []
repeat (suc n) c = c ∷ repeat n c

abbrev pub tag_of : Text → Text
tag_of key = take 16 (key ++ repeat 16 7)

abbrev pub toy_decrypt : Text → Text → Text → Text → Result Error Text
toy_decrypt key nonce cipher aad =
    let n = length cipher - 16 in
    if text_eq (drop n cipher) (tag_of key)
    then ok (take n cipher)
    else err (Error.retriable "Failed to decrypt")

abbrev pub toy_crypto : Crypto
toy_crypto = record {
  aead_encrypt = λ key nonce msg aad. ok (msg ++ tag_of key);
  aead_decrypt = toy_decrypt;
  argon2id = λ password secret nonce. ok (password ++ (secret ++ nonce));
  blake3_derive_key = λ context root. take 32 root;
  base64_encode = λ bytes. bytes;
  base64_decode = λ bytes. ok bytes;
}

abbrev pub Files : Type 0
Files = List (Text × Text)

abbrev pub names : Files → List Text
names [] = []
names ((n, c) ∷ files) = n ∷ names files

abbrev pub find : Text → Files → Option Text
find name [] = none
find name ((n, c) ∷ files) = if text_eq n name then some c else find name files

abbrev pub without : Text → Files → Files
without name [] = []
without name ((n, c) ∷ files) =
    if text_eq n name then without name files else ((n, c) ∷ without name files)

abbrev pub toy_storage : StorageImpl
toy_storage = record {
  State = Files;
  can_backup = λ s. true;
  is_uploaded = λ name s. true;
  list_backup_file_names = names;
  copy_to_storage = λ name contents s. (true, (name, contents) ∷ s);
  copy_from_storage = find;
  delete_backup = λ name s. (true, without name s);
}

abbrev pub toy_os : OsImpl
toy_os = record {
  State = Unit {0};
  random_bytes = λ n s. (ok (repeat n 5), s);
  gen_range = λ n s. (3, s);
  new_uuid = λ s. (codes "uuid", s);
  random_secret_key = λ s. (repeat 32 3, s);
  unix_timestamp = λ s. (pos 1000, s);
  rfc3339_timestamp = λ s. (codes "now", s);
  parse_rfc3339 = λ t. ok (pos 1000);
  connect = λ s. (ok tt, s);
  commit = λ s. (ok tt, s);
  checkpoint = λ s. (ok true, s);
  file_access = λ s. (ok tt, s);
  os_name = codes "ios";
}

abbrev pub empty_wallet : Wallet
empty_wallet = record {
  chains = [];
  dapps = [];
  asymmetric_keys = [];
  addresses = [];
  local_dapp_sessions = [];
  profiles = [];
  profile_pictures = [];
  data_migrations = [];
}

abbrev pub toy_settings : ℕ → LocalSettings
toy_settings version = record {
  profile_id = codes "profile";
  backup_enabled = true;
  backup_version = pos version;
  backup_completed_at = none;
  backup_password_updated_at = none;
  backup_kdf_nonce = some (repeat 16 5);
}

-- The key of the password of 20 times "3" and the secret of 32 times 5.
abbrev pub toy_key : Text
toy_key = repeat 20 b'3' ++ repeat 12 5

abbrev pub toy_db : ℕ → Db (Unit {0})
toy_db version = record {
  local_settings = some (toy_settings version);
  data_encryption_keys =
      record { deterministic_id = codes "dek"; name = "SK-DATA-ENCRYPTION-KEY" } ∷ [];
  local_encrypted_deks =
      record {
        id = 1;
        dek_id = codes "dek";
        encrypted_dek = repeat 24 5 ++ (repeat 32 9 ++ tag_of (repeat 32 5));
        kek_name = "SK-KEY-ENCRYPTION-KEY";
        created_at = codes "now";
        updated_at = none;
      }
      ∷ (record {
        id = 2;
        dek_id = codes "dek";
        encrypted_dek = repeat 24 5 ++ (repeat 32 9 ++ tag_of toy_key);
        kek_name = "SECRET-KEY-BACKUP-KEY-ENCRYPTION-KEY";
        created_at = codes "now";
        updated_at = none;
      }
          ∷ []);
  wallet = empty_wallet;
  tables = tt;
}

abbrev pub version_bytes : Db (Unit {0}) → Text
version_bytes d = elim d.local_settings [
  | none ↦ 0 ∷ []
  | some s ↦ elim s.backup_version [ ℤ.pos n ↦ 1 ∷ (n ∷ []) | ℤ.negsuc n ↦ 0 ∷ [] ]
]

abbrev pub read_version : Text → Result Error (Db (Unit {0}))
read_version [] = err (Error.fatal "no database")
read_version (c ∷ []) = err (Error.fatal "no database")
read_version (c ∷ (v ∷ s)) = ok (toy_db v)

-- The metadata of the one device of the system, by the version and the time.
abbrev pub toy_metadata : ℕ → BackupMetadata
toy_metadata version = record {
  backup_scheme = BackupScheme.v1;
  backup_version = version;
  timestamp = pos 1000;
  device_id = codes "device-1";
  device_name = codes "phone";
  operating_system = codes "ios";
  kdf_nonce = repeat 16 5;
}

abbrev pub put : Text → Text → Text
put t rest = length t ∷ (t ++ rest)

abbrev pub put_int : ℤ → Text → Text
put_int (ℤ.pos n) rest = 0 ∷ (n ∷ rest)
put_int (ℤ.negsuc n) rest = 1 ∷ (n ∷ rest)

abbrev pub get : Text → Text × Text
get [] = ([], [])
get (n ∷ s) = (take n s, drop n s)

abbrev pub get_int : Text → ℤ × Text
get_int [] = (pos 0, [])
get_int (s ∷ []) = (pos 0, [])
get_int (zero ∷ (n ∷ rest)) = (pos n, rest)
get_int (suc s ∷ (n ∷ rest)) = (ℤ.negsuc n, rest)

abbrev pub toy_json : BackupMetadata → Text
toy_json m =
    m.backup_version
    ∷ put_int m.timestamp
        (put m.device_id (put m.device_name (put m.operating_system (put m.kdf_nonce []))))

abbrev pub read_json : Text → Result Error BackupMetadata
read_json [] = err (Error.retriable "Failed to deserialize backup metadata")
read_json (v ∷ s) =
    let (t, s1) = get_int s in
    let (id, s2) = get s1 in
    let (name, s3) = get s2 in
    let (os, s4) = get s3 in
    let (nonce, _) = get s4 in
    ok (record {
      backup_scheme = BackupScheme.v1;
      backup_version = v;
      timestamp = t;
      device_id = id;
      device_name = name;
      operating_system = os;
      kdf_nonce = nonce;
    })

abbrev pub toy : System
toy = record {
  Tables = Unit {0};
  keychain = in_memory_keychain;
  storage = toy_storage;
  os = toy_os;
  crypto = toy_crypto;
  db_to_bytes = version_bytes;
  db_from_bytes = read_version;
  zip = λ b m. ok (put b m);
  unzip_backup = λ a. ok (get a).0;
  unzip_metadata = λ a. ok (get a).1;
  canonical_json = λ m. ok (toy_json m);
  metadata_from_slice = read_json;
  unicode_digit = Decimal.is_digit;
}

abbrev pub toy_keychain : InMemoryKeychain
toy_keychain = record {
  local_data =
      (KeyName.db_backup_data_encryption_key, toy_key)
      ∷ ((KeyName.sk_key_encryption_key, repeat 32 5)
          ∷ ((KeyName.sk_backup_key_encryption_key, toy_key)
              ∷ ((KeyName.backup_password, repeat 20 b'3') ∷ [])));
  synced_data = ((codes "device-1", KeyName.kdf_secret), repeat 32 5) ∷ [];
}

-- The system at a version, with some files in the storage.
abbrev pub toy_world : ℕ → Files → World ⦃sys = toy⦄
toy_world version files = record {
  db = toy_db version;
  db_file = toy_db 0;
  keychain = toy_keychain;
  storage = files;
  os = tt;
}

abbrev pub toy_device : Device
toy_device = record { device_id = codes "device-1"; device_name = codes "phone" }
