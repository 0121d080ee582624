-- ===== src/Migrations.antt =====
-- core/src/db/data_migrations.rs and core/src/db/models/data_migration.rs: the data migrations, which
-- run once each in one exclusive transaction, and the table that remembers them.
pub mod Once
pub mod Defaults
pub mod Steps
use sealvault.Prelude.{
  Text, codes, Bool, true, false, ◌||◌, List, [], ◌∷◌, ◌++◌, Option, none, text_eq, if◌then◌else◌,
}
use sealvault.Prelude.Result.{Result, ok, err}
use sealvault.Prelude.Exec.{◌>>=◌, ◌>>◌, pure, raise, lift}
use sealvault.Error.{Error}
use sealvault.Ethereum.{EthImpl, Url}
use sealvault.Ethereum.Chains.{default_dapp_chain}
use sealvault.Db.{Db, database_error}
use sealvault.Db.Settings.{fetch_active_profile_id}
use sealvault.System.{System, World, App, on_clock, query, write}
use sealvault.Wallet.{Dapp, DataMigration, Wallet}
use sealvault.Wallet.Ids.{EntityName, deterministic_id}
use sealvault.Wallet.Dapps.{create_if_not_exists, list_all_dapps}
use sealvault.Wallet.Addresses.Signing.{create_eth_key_and_address}
use sealvault.Wallet.Sessions.{create_eth_session}
use sealvault.Wallet.Rows.{exists}

unfoldable pub versions_of : List DataMigration → List Text
versions_of [] = []
versions_of (m ∷ ms) = m.version ∷ versions_of ms

unfoldable pub has_version : Text → DataMigration → Bool
has_version version m = text_eq m.version version

has_migration_id : Text → DataMigration → Bool
has_migration_id id m = text_eq m.deterministic_id id

-- The primary key, and the unique version
unfoldable pub insert_migration : {T : Type 0} → DataMigration → Db T → Result Error (Db T)
unfolding has_version has_migration_id
insert_migration m db =
    if exists (has_migration_id m.deterministic_id) db.wallet.data_migrations
      || exists (has_version m.version) db.wallet.data_migrations
    then err database_error
    else ok (record db {
      wallet = record db.wallet { data_migrations = db.wallet.data_migrations ++ (m ∷ []) };
    })

-- `HashSet::contains`
unfoldable pub contains_version : Text → List Text → Bool
contains_version v [] = false
contains_version v (u ∷ vs) = text_eq u v || contains_version v vs

module _ ⦃sys : System⦄ where
  -- The trait `Migration`, with the connection and the keychain as the state
  pub record Migration : Type 0 where
    pub version : Text
    pub description : Text
    pub run : App (Unit {0})
    pub rollback : App (Unit {0})

module _ ⦃sys : System⦄ ⦃eth : EthImpl⦄ where
  -- The order of the versions does not matter to the set that is made of them.
  unfoldable pub list_versions : App (List Text)
  unfolding versions_of
  list_versions = query (λ db. ok (versions_of db.wallet.data_migrations))

  -- `NewDataMigration::insert`
  unfoldable pub insert_new_migration : Text → Text → App Text
  unfolding insert_migration write
  insert_new_migration version description = do
    id ← lift (deterministic_id EntityName.data_migration (version ∷ []))
    now ← on_clock sys.os.rfc3339_timestamp
    write (
        insert_migration (record {
          deterministic_id = id;
          version = version;
          description = description;
          created_at = now;
          updated_at = none;
        }))
    pure id

  -- What follows a run: a success is recorded; a failure is rolled back and returned, unless the
  -- rollback fails too.
  unfoldable pub record_or_roll_back : Migration → Result Error (Unit {0}) → App (Unit {0})
  record_or_roll_back m (ok _) = do insert_new_migration m.version m.description; pure tt
  record_or_roll_back m (err e) = do m.rollback; raise e

  unfoldable pub apply_migration : Migration → App (Unit {0})
  apply_migration m w = let (r, v) = m.run w in record_or_roll_back m r v

  -- the loop of `run_all`
  unfoldable pub run_migrations : List Text → List Migration → App (Unit {0})
  run_migrations applied [] = pure tt
  run_migrations applied (m ∷ ms) = do
    let rest = run_migrations applied ms
    if contains_version m.version applied then pure tt else apply_migration m
    rest

  unfoldable pub run_all : List Migration → App (Unit {0})
  unfolding list_versions
  run_all migrations = do applied ← list_versions; run_migrations applied migrations

  -- `MigrationV1::add_dapp`
  unfoldable pub add_dapp : Text → Url → App (Unit {0})
  add_dapp profile_id url = do
    dapp_id ← create_if_not_exists url
    create_eth_key_and_address (record {
      profile_id = profile_id;
      chain_id = default_dapp_chain;
      dapp_id = Option.some dapp_id;
      is_profile_wallet = false;
    })
    create_eth_session
        (record { dapp_id = dapp_id; profile_id = profile_id; chain_id = default_dapp_chain })
    pure tt

  unfoldable add_dapps : Text → List Url → App (Unit {0})
  add_dapps profile_id [] = pure tt
  add_dapps profile_id (url ∷ urls) = do add_dapp profile_id url; add_dapps profile_id urls

  unfoldable default_dapps : List Url → List Dapp → App (Unit {0})
  unfolding add_dapps
  default_dapps urls (d ∷ ds) = pure tt
  default_dapps urls [] = do profile_id ← query fetch_active_profile_id; add_dapps profile_id urls

  -- `MigrationV1`, with the parsed `default_dapp_urls`
  unfoldable pub migration_v1 : List Url → Migration
  unfolding default_dapps
  migration_v1 urls = record {
    version = codes "v1";
    description =
        codes "Adds default dapps on default dapp chain if the user doesn't have any dapps.";
    run = (do dapps ← list_all_dapps; default_dapps urls dapps);
    rollback = pure tt;
  }
