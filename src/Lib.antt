-- ===== src/Lib.antt =====
-- SealVault, a wallet whose core is the Rust crate under core/: its backups, and the provider that
-- serves the pages of dapps.
--
-- The wallet keeps its keys and settings in one SQLite database. A backup is an encrypted copy of
-- that database in a storage of the platform. Its key is derived from a password that the user
-- writes down, a secret that the keychain synchronises, and a nonce that the database keeps and the
-- backup's metadata names. A restore derives the same key again, checks the copy, puts it in place,
-- and makes a new key for the secret keys on the new device.
--
-- A page of a dapp sends JSON-RPC requests. The provider looks up the session of the dapp in the
-- active profile. Without one it asks the user for an approval, which creates a key, an address and a
-- session. With one it answers, signs with the key of the session, or passes the request on to a
-- remote API.
--
-- - Error: core/src/error.rs, core/src/backup/backup_error.rs and the errors of core/src/dto.rs.
-- - Encryption: core/src/encryption. KeyName, KeyMaterial, EncryptionOutput, BackupPassword,
--   Keychain and Keys follow the files of those names; BackupKeys has the nonce, the secret, the
--   root key and the keychain side of the password.
-- - Db: the database; core/src/db/models/local_settings.rs (Db.Settings), data_encryption_key.rs and
--   local_encrypted_dek.rs (Db.Deks).
-- - Wallet: the tables of chain.rs, dapp.rs, asymmetric_key.rs, address.rs, local_dapp_session.rs,
--   profile.rs, profile_picture.rs and data_encryption_key.rs in core/src/db/models, with the ids of
--   core/src/db/deterministic_id.rs (Wallet.Ids). A table is a list of rows; an insert checks the
--   keys and the constraints of the schema, and a query without an order takes the rows in the
--   order of the table.
-- - Ethereum: core/src/protocols/eth, its chains, keys and addresses, and the crates it calls.
-- - Provider: core/src/protocols/eth/in_page_provider. Request is in_page_request.rs; Codes, Accounts,
--   Signing, Approval and Dispatch are dapp_key_provider.rs.
-- - Migrations: core/src/db/data_migrations.rs and core/src/db/models/data_migration.rs. Steps
--   is the first and the last migration.
-- - System: what surrounds the program as a record, the state that the backup code works on, and
--   the transactions of core/src/db/connection_pool.rs.
-- - Backup: core/src/backup. FileName is metadata.rs, backup_scheme.rs and core/src/device.rs;
--   Create is create.rs; Setup is setup.rs; Latest and Restore are restore.rs.
-- - Core: core/src/app_core.rs, the operations of the user interface on backups, profiles and
--   chains; Core.Enabling is about the failure to enable backups.
-- - Prelude: numbers, texts, lists, results, and computations over a state that may fail.
-- - Tests: a small system on which every theorem is tried out.
--
-- A function that changes database, keychain or storage is a function from a World to a result and
-- a World; what is written before an error stays written, as in the program. A transaction
-- that fails puts the database back and nothing else, which is what Diesel does; a rollback itself
-- does not fail. Functions keep the names of the source; a loop is a function
-- `..._loop` by recursion on the list it runs over, so that no fuel is needed but in
-- the printing of a number, where the number plus one is more than its digits.
--
-- Parameters, as fields of `System`, are the code that is not in the repository: ciphers and hash
-- functions, zip and JSON, SQLite's reading of a file, the file system, clocks, random bytes, the
-- keychain of the platform and the backup storage. Laws about them are hypotheses of the theorems
-- that need them: IsAead, IsArchiving, IsStorage, the keychain's IsLawful, and the
-- laws of the two character tables. The crates for Ethereum and for JSON-RPC are `EthImpl` and
-- `ProviderImpl`. The provider works on a Page, a World with the calls made so far, the latest first;
-- the answers of the remote API may depend on them. A background task is a call `spawn`, which
-- `run_task` runs.
--
-- Not modelled: locks and logging, which change no result; temporary directories beyond the
-- failure of an access; the write-ahead log beyond whether it was flushed; two threads on the same
-- database; the texts of foreign errors; the time of a new data encryption key. Tokens, the remote
-- API and the user interface are outside this library.
pub mod Prelude
pub mod Error
pub mod Encryption
pub mod Db
pub mod Wallet
pub mod Ethereum
pub mod Provider
pub mod Migrations
pub mod System
pub mod Backup
pub mod Core
pub mod Tests
