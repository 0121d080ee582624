-- ===== src/Migrations/Steps.antt =====
-- core/src/db/data_migrations.rs: the migration that creates the keys and the first profile, and the
-- one that gives profiles and pictures the ids of their new names; with the list of all migrations.
pub mod Kept
use sealvault.Prelude.{
  Text, codes, Bool, true, false, List, [], ◌∷◌, ◌++◌, Option, none, some, text_eq, if◌then◌else◌,
}
use sealvault.Prelude.Result.{Result, ok, err}
use sealvault.Prelude.Exec.{◌>>=◌, ◌>>◌, pure, raise, lift}
use sealvault.Encryption.KeyName.{KeyName, as_ref}
use sealvault.Encryption.Keys.{
  random_kek, random_dek, upsert_kek, sk_kek, to_encrypted, delete_key_if_exists, try_random_bytes,
}
use sealvault.Ethereum.{EthImpl, Url}
use sealvault.Db.Deks.{insert_led}
use sealvault.Db.Settings
use sealvault.Db.Settings.{fetch_active_profile_id, set_active_profile_id}
use sealvault.System.{System, World, App, on_clock, query, update, write}
use sealvault.Wallet.{AsymmetricKey, Profile, ProfilePicture}
use sealvault.Wallet.Deks.{insert_new_dek}
use sealvault.Wallet.Ids.{EntityName}
use sealvault.Wallet.Keys.{list_all_keys, set_profile_id}
use sealvault.Wallet.Pictures.{
  list_all_pictures, insert_picture_row, delete_picture, set_image_hash, picture_entity_id,
}
use sealvault.Wallet.Profiles.{
  profile_name_try_from, create_eth_profile, list_all_profiles, insert_profile, delete_profile,
  set_picture_id, set_uuid, profile_entity_id,
}
use sealvault.Migrations.{Migration, migration_v1}

module _ ⦃sys : System⦄ ⦃eth : EthImpl⦄ where
  unfoldable pub run_v0 : App (Unit {0})
  run_v0 = do
    random ← random_kek KeyName.sk_key_encryption_key
    upsert_kek random
    kek ← sk_kek
    dek ← random_dek KeyName.sk_data_encryption_key
    dek_id ← insert_new_dek (as_ref dek.name)
    encrypted ← to_encrypted dek kek
    now ← on_clock sys.os.rfc3339_timestamp
    write (insert_led dek_id encrypted (as_ref kek.name) now)
    name ← lift (profile_name_try_from (codes "Default"))
    profile_id ← create_eth_profile name (codes "seal-7")
    write (Settings.create profile_id)

  unfoldable pub migration_v0 : Migration
  migration_v0 = record {
    version = codes "v0";
    description =
        codes
          "Creates SK-KEK, SK-DEK and Default profile with an Ethereum/Polygon PoS wallet address.";
    run = run_v0;
    rollback = delete_key_if_exists KeyName.sk_key_encryption_key;
  }

  -- the keys of a profile that has got a new id
  unfoldable pub move_profile_keys : Text → Text → List AsymmetricKey → App (Unit {0})
  move_profile_keys old new [] = pure tt
  move_profile_keys old new (k ∷ ks) = do
    let rest = move_profile_keys old new ks
    if text_eq k.profile_id old then set_profile_id k.deterministic_id new else pure tt
    rest

  -- A profile under its old id is inserted again under the new one, with a uuid that is put right in
  -- the end, as uuids are unique.
  unfoldable pub rename_profile : Profile → App (Unit {0})
  rename_profile p = do
    temporary ← on_clock sys.os.new_uuid
    new_id ← lift (profile_entity_id EntityName.profile p.uuid)
    insert_profile (record p { deterministic_id = new_id; uuid = temporary })
    active ← query fetch_active_profile_id
    if text_eq active p.deterministic_id then write (set_active_profile_id new_id) else pure tt
    keys ← list_all_keys
    move_profile_keys p.deterministic_id new_id keys
    delete_profile p.deterministic_id
    set_uuid new_id p.uuid

  unfoldable pub migrate_profile : Profile → App (Unit {0})
  migrate_profile p = do
    deprecated ← lift (profile_entity_id EntityName.account p.uuid)
    if text_eq p.deterministic_id deprecated then rename_profile p else pure tt

  unfoldable pub migrate_profiles_loop : List Profile → App (Unit {0})
  migrate_profiles_loop [] = pure tt
  migrate_profiles_loop (p ∷ ps) = do migrate_profile p; migrate_profiles_loop ps

  unfoldable pub migrate_profiles : App (Unit {0})
  migrate_profiles = do profiles ← list_all_profiles; migrate_profiles_loop profiles

  -- the profiles of a picture that has got a new id
  unfoldable pub move_pictures : Text → Text → List Profile → App (Unit {0})
  move_pictures old new [] = pure tt
  move_pictures old new (p ∷ ps) = do
    let rest = move_pictures old new ps
    if text_eq p.picture_id old then set_picture_id p.deterministic_id new else pure tt
    rest

  unfoldable pub rename_picture : ProfilePicture → App (Unit {0})
  rename_picture p = do
    temporary ← try_random_bytes 32
    new_id ← lift (picture_entity_id EntityName.profile_picture p.image_hash)
    insert_picture_row (record p { deterministic_id = new_id; image_hash = temporary })
    profiles ← list_all_profiles
    move_pictures p.deterministic_id new_id profiles
    delete_picture p.deterministic_id
    set_image_hash new_id p.image_hash

  unfoldable pub migrate_picture : ProfilePicture → App (Unit {0})
  migrate_picture p = do
    deprecated ← lift (picture_entity_id EntityName.account_picture p.image_hash)
    if text_eq p.deterministic_id deprecated then rename_picture p else pure tt

  unfoldable pub migrate_pictures_loop : List ProfilePicture → App (Unit {0})
  migrate_pictures_loop [] = pure tt
  migrate_pictures_loop (p ∷ ps) = do migrate_picture p; migrate_pictures_loop ps

  unfoldable pub migrate_profile_pictures : App (Unit {0})
  migrate_profile_pictures = do pictures ← list_all_pictures; migrate_pictures_loop pictures

  unfoldable pub migration_v2 : Migration
  migration_v2 = record {
    version = codes "v2";
    description = codes "Update profile deterministic ids after accounts were renamed to profiles.";
    run = migrate_profiles >> migrate_profile_pictures;
    rollback = pure tt;
  }

  -- `MIGRATIONS`, over the default dapps
  abbrev pub all_migrations : List Url → List Migration
  all_migrations urls = migration_v0 ∷ (migration_v1 urls ∷ (migration_v2 ∷ []))
