-- ===== src/System.antt =====
-- What surrounds the program, as an interface: the operating system, the keychain, the backup
-- storage (the trait `BackupStorageI` of core/src/backup/backup_storage.rs), the ciphers and the
-- file formats. Above it the state that the backup code works on, and the transactions of
-- core/src/db/connection_pool.rs.
pub mod Laws
use sealvault.Prelude.{ℕ, Text, String, Bool, true, false, Option, List, if◌then◌else◌}
use sealvault.Prelude.Int.{ℤ}
use sealvault.Prelude.Result.{Result, ok, err, map_err}
use sealvault.Prelude.Exec.{Exec, ◌>>=◌, ◌>>◌, pure, raise, lift, gets}
use sealvault.Error.{Error, BackupError, to_backup_error, from_backup_error}
use sealvault.Encryption.Keychain.{KeychainImpl, KeychainError, to_error}
use sealvault.Db.{Db}
use sealvault.Backup.FileName.{BackupMetadata}

-- The crates `chacha20poly1305`, `argon2`, `blake3` and `base64`. A key comes first, then a nonce.
pub record Crypto : Type 0 where
  pub aead_encrypt : Text → Text → Text → Text → Result Error Text
  pub aead_decrypt : Text → Text → Text → Text → Result Error Text
  pub argon2id : Text → Text → Text → Result Error Text
  pub blake3_derive_key : String → Text → Text
  pub base64_encode : Text → Text
  pub base64_decode : Text → Result Error Text

-- The trait `BackupStorageI`; a copy carries the contents of the local file.
pub record StorageImpl : Type 1 where
  pub State : Type 0
  pub can_backup : State → Bool
  pub is_uploaded : Text → State → Bool
  pub list_backup_file_names : State → List Text
  pub copy_to_storage : Text → Text → State → Bool × State
  pub copy_from_storage : Text → State → Option Text
  pub delete_backup : Text → State → Bool × State

-- Random bytes, clocks, temporary files, and the access to the database file. Each may fail, and
-- `checkpoint` says whether the write-ahead log was flushed.
pub record OsImpl : Type 1 where
  pub State : Type 0
  pub random_bytes : ℕ → State → Result Error Text × State
  pub gen_range : ℕ → State → ℕ × State
  pub new_uuid : State → Text × State
  pub random_secret_key : State → Text × State
  pub unix_timestamp : State → ℤ × State
  pub rfc3339_timestamp : State → Text × State
  pub parse_rfc3339 : Text → Result Error ℤ
  pub connect : State → Result Error (Unit {0}) × State
  pub commit : State → Result Error (Unit {0}) × State
  pub checkpoint : State → Result Error Bool × State
  pub file_access : State → Result Error (Unit {0}) × State
  pub os_name : Text

pub record System : Type 1 where
  pub Tables : Type 0
  pub keychain : KeychainImpl
  pub storage : StorageImpl
  pub os : OsImpl
  pub crypto : Crypto
  -- the bytes of a database file, and what SQLite reads from such bytes
  pub db_to_bytes : Db Tables → Text
  pub db_from_bytes : Text → Result Error (Db Tables)
  -- the zip archive of the encrypted backup and the metadata, and its two entries
  pub zip : Text → Text → Result Error Text
  pub unzip_backup : Text → Result Error Text
  pub unzip_metadata : Text → Result Error Text
  -- the JSON of the metadata, and the decimal digits of all scripts
  pub canonical_json : BackupMetadata → Result Error Text
  pub metadata_from_slice : Text → Result Error BackupMetadata
  pub unicode_digit : ℕ → Bool

module _ ⦃sys : System⦄ where
  -- `db` is what a connection sees, and `db_file` is the database file without its write-ahead log.
  pub record World : Type 0 where
    pub db : Db sys.Tables
    pub db_file : Db sys.Tables
    pub keychain : sys.keychain.State
    pub storage : sys.storage.State
    pub os : sys.os.State

module _ ⦃sys : System⦄ where
  abbrev pub App : Type 0 → Type 0
  App A = Exec World Error A

  abbrev pub BackupApp : Type 0 → Type 0
  BackupApp A = Exec World BackupError A

  -- `?` on an application error where a backup error is returned, and the other way
  abbrev pub as_backup : {A : Type 0} → App A → BackupApp A
  as_backup m w = let (r, w') = m w in (map_err to_backup_error r, w')

  abbrev pub as_app : {A : Type 0} → BackupApp A → App A
  as_app m w = let (r, w') = m w in (map_err from_backup_error r, w')

  -- `map_err` with a fixed error
  abbrev pub or_error : {A : Type 0} → BackupError → App A → BackupApp A
  or_error e m w = let (r, w') = m w in (map_err (λ _. e) r, w')

  -- `let _ = …`: the result is dropped.
  abbrev pub ignore : {A : Type 0} → App A → App (Unit {0})
  ignore m w = let (r, w') = m w in (ok tt, w')

module _ ⦃sys : System⦄ where
  -- an operation of the operating system that may fail
  abbrev pub on_os : {A : Type 0} → (sys.os.State → Result Error A × sys.os.State) → App A
  on_os m w = let (r, o) = m w.os in (r, record w { os = o })

  -- a clock
  abbrev pub on_clock : {A : Type 0} → (sys.os.State → A × sys.os.State) → App A
  on_clock m w = let (a, o) = m w.os in (ok a, record w { os = o })

  abbrev keychain_result : {A : Type 0} → Result KeychainError A → Result Error A
  keychain_result (ok a) = ok a
  keychain_result (err e) = err (to_error e)

  abbrev pub read_keychain : {A : Type 0} → (sys.keychain.State → Result KeychainError A) → App A
  read_keychain q w = (keychain_result (q w.keychain), w)

  abbrev pub on_keychain :
      {A : Type 0} → (sys.keychain.State → Result KeychainError A × sys.keychain.State) → App A
  on_keychain m w = let (r, k) = m w.keychain in (keychain_result r, record w { keychain = k })

  abbrev pub query : {A : Type 0} → (Db sys.Tables → Result Error A) → App A
  query q w = (q w.db, w)

  abbrev pub update : (Db sys.Tables → Db sys.Tables) → App (Unit {0})
  update u w = (ok tt, record w { db = u w.db })

  -- an insert, which a constraint may refuse
  write_result : Result Error (Db sys.Tables) → World → Result Error (Unit {0}) × World
  write_result (ok d) w = (ok tt, record w { db = d })
  write_result (err e) w = (err e, w)

  unfoldable pub write : (Db sys.Tables → Result Error (Db sys.Tables)) → App (Unit {0})
  unfolding write_result
  write f w = write_result (f w.db) w

  committed : {A : Type 0} → Db sys.Tables → A → Result Error (Unit {0}) → App A
  committed before a (ok _) v = (ok a, v)
  committed before a (err e) v = (err e, record v { db = before })

  -- What Diesel does at the end of a transaction: a commit that fails and a failed callback both put
  -- the database back, as SQLite keeps nothing of a transaction that is not committed. The keychain
  -- and the storage keep what was done to them.
  finish : {A : Type 0} → Db sys.Tables → Result Error A → App A
  finish before (err e) w = (err e, record w { db = before })
  finish before (ok a) w =
      let (r, o) = sys.os.commit w.os in committed before a r (record w { os = o })

  -- `ConnectionPool::connection`
  abbrev pub connection : App (Unit {0})
  connection = on_os sys.os.connect

  -- `deferred_transaction` and `exclusive_transaction`, which differ in locking alone
  unfoldable pub transaction : {A : Type 0} → App A → App A
  unfolding finish committed
  transaction callback = do
    connection
    before ← gets (λ w. w.db)
    λ w. let (r, w') = callback w in finish before r w'
