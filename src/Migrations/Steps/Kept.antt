-- ===== src/Migrations/Steps/Kept.antt =====
-- The migrations leave the table that remembers them to the loop, so that they run once.
use sealvault.Prelude.{◌≡◌, refl, arith, Text, List, [], ◌∷◌, All}
use sealvault.Prelude.Result.{ok}
use sealvault.Encryption.Keys.{
  random_kek, random_dek, random_material, upsert_kek, sk_kek, to_encrypted, encrypt,
  try_random_bytes,
}
use sealvault.Ethereum.{EthImpl, Url}
use sealvault.Db.Deks.{insert_led}
use sealvault.Db.Settings
use sealvault.Db.Settings.{set_active_profile_id}
use sealvault.System.{System, World, write}
use sealvault.Wallet.{AsymmetricKey, Profile, ProfilePicture}
use sealvault.Wallet.Deks.{insert_new_dek, insert_dek_row}
use sealvault.Wallet.Frames.{migrations, create_eth_key_and_address-migrations}
use sealvault.Wallet.Keys.{list_all_keys, set_profile_id, move_keys}
use sealvault.Wallet.Pictures.{
  list_all_pictures, insert_picture_row, insert_picture, delete_picture, remove_picture,
  set_image_hash, change_hash, create_picture, insert_bundled,
}
use sealvault.Wallet.Profiles.{
  create_eth_profile, create_profile, list_all_profiles, insert_profile, insert_profile_row,
  delete_profile, remove_profile, set_picture_id, change_picture, set_uuid, change_uuid,
}
use sealvault.Migrations.{run_all}
use sealvault.Migrations.Defaults.{migration_v1-Keeps}
use sealvault.Migrations.Once.{Keeps, Recorded, run_all-run_all}
use sealvault.Migrations.Steps.{
  run_v0, migration_v0, move_profile_keys, rename_profile, migrate_profile, migrate_profiles_loop,
  migrate_profiles, move_pictures, rename_picture, migrate_picture, migrate_pictures_loop,
  migrate_profile_pictures, migration_v2, all_migrations,
}

module _ ⦃sys : System⦄ ⦃eth : EthImpl⦄ where
  create_eth_profile-migrations :
      (name picture : Text) (w : World)
      → migrations (create_eth_profile name picture w).1 ≡ migrations w
  unfolding create_eth_profile create_profile insert_profile insert_profile_row insert_bundled
      create_picture insert_picture_row insert_picture write
  create_eth_profile-migrations name picture w =
      grind (arith, create_eth_key_and_address-migrations)

  run_v0-migrations : (w : World) → migrations (run_v0 w).1 ≡ migrations w
  unfolding run_v0 random_kek random_dek random_material try_random_bytes upsert_kek sk_kek
      to_encrypted encrypt insert_new_dek insert_dek_row insert_led Settings.create write
  run_v0-migrations w = grind (arith, create_eth_profile-migrations)

  migration_v0-Keeps : Keeps migration_v0
  unfolding migration_v0
  migration_v0-Keeps w = run_v0-migrations w

  move_profile_keys-migrations :
      (old new : Text) (ks : List AsymmetricKey) (w : World)
      → migrations (move_profile_keys old new ks w).1 ≡ migrations w
  unfolding move_profile_keys set_profile_id move_keys
  move_profile_keys-migrations old new [] w = refl
  move_profile_keys-migrations old new (k ∷ ks) w =
      grind (arith, move_profile_keys-migrations old new ks)

  rename_profile-migrations :
      (p : Profile) (w : World) → migrations (rename_profile p w).1 ≡ migrations w
  unfolding rename_profile insert_profile insert_profile_row set_active_profile_id list_all_keys
      delete_profile remove_profile set_uuid change_uuid write
  rename_profile-migrations p w = grind (arith, move_profile_keys-migrations)

  migrate_profile-migrations :
      (p : Profile) (w : World) → migrations (migrate_profile p w).1 ≡ migrations w
  unfolding migrate_profile
  migrate_profile-migrations p w = ground (arith, rename_profile-migrations p w)

  migrate_profiles_loop-migrations :
      (ps : List Profile) (w : World) → migrations (migrate_profiles_loop ps w).1 ≡ migrations w
  unfolding migrate_profiles_loop
  migrate_profiles_loop-migrations [] w = refl
  migrate_profiles_loop-migrations (p ∷ ps) w =
      grind (arith, migrate_profile-migrations, migrate_profiles_loop-migrations ps)

  move_pictures-migrations :
      (old new : Text) (ps : List Profile) (w : World)
      → migrations (move_pictures old new ps w).1 ≡ migrations w
  unfolding move_pictures set_picture_id change_picture write
  move_pictures-migrations old new [] w = refl
  move_pictures-migrations old new (p ∷ ps) w = grind (arith, move_pictures-migrations old new ps)

  rename_picture-migrations :
      (p : ProfilePicture) (w : World) → migrations (rename_picture p w).1 ≡ migrations w
  unfolding rename_picture try_random_bytes insert_picture_row insert_picture list_all_profiles
      delete_picture remove_picture set_image_hash change_hash write
  rename_picture-migrations p w = grind (arith, move_pictures-migrations)

  migrate_picture-migrations :
      (p : ProfilePicture) (w : World) → migrations (migrate_picture p w).1 ≡ migrations w
  unfolding migrate_picture
  migrate_picture-migrations p w = ground (arith, rename_picture-migrations p w)

  migrate_pictures_loop-migrations :
      (ps : List ProfilePicture) (w : World)
      → migrations (migrate_pictures_loop ps w).1 ≡ migrations w
  unfolding migrate_pictures_loop
  migrate_pictures_loop-migrations [] w = refl
  migrate_pictures_loop-migrations (p ∷ ps) w =
      grind (arith, migrate_picture-migrations, migrate_pictures_loop-migrations ps)

  migration_v2-Keeps : Keeps migration_v2
  unfolding migration_v2 migrate_profiles migrate_profile_pictures list_all_profiles
      list_all_pictures
  migration_v2-Keeps w =
      grind (arith, migrate_profiles_loop-migrations, migrate_pictures_loop-migrations)

  -- After a run of the three migrations that succeeds each of them is recorded in the table, and a
  -- second run succeeds and changes nothing.
  pub all_migrations-once :
      (urls : List Url) (w v : World)
      → run_all (all_migrations urls) w ≡ (ok tt, v)
      → All (Recorded v) (all_migrations urls) × (run_all (all_migrations urls) v ≡ (ok tt, v))
  all_migrations-once urls w v h =
      run_all-run_all (all_migrations urls) w v
        (migration_v0-Keeps, (migration_v1-Keeps urls, (migration_v2-Keeps, tt))) h
