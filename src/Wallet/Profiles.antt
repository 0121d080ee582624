-- ===== src/Wallet/Profiles.antt =====
-- core/src/db/models/profile.rs: profiles, each with a wallet key, and the names they may have.
use sealvault.Prelude.{
  ℕ, Text, Bool, not, ◌||◌, ◌&&◌, List, [], ◌∷◌, ◌++◌, Option, none, some, text_eq, ltb, length,
  if◌then◌else◌,
}
use sealvault.Prelude.Result.{Result, ok, err}
use sealvault.Prelude.Exec.{◌>>=◌, ◌>>◌, pure, lift}
use sealvault.Error.{Error}
use sealvault.Ethereum.{EthImpl}
use sealvault.Ethereum.Chains.{default_wallet_chain}
use sealvault.Db.{Db, LocalSettings, database_error}
use sealvault.System.{System, App, on_clock, query, write}
use sealvault.Wallet.{AsymmetricKey, Profile}
use sealvault.Wallet.Addresses.Signing.{create_eth_key_and_address}
use sealvault.Wallet.Dapps.{has_profile_id}
use sealvault.Wallet.Ids.{EntityName, deterministic_id}
use sealvault.Wallet.Pictures.{has_picture_id, insert_bundled}
use sealvault.Wallet.Rows.{exists, filter, update_rows}

abbrev pub max_profile_name_length : ℕ
max_profile_name_length = 30

-- `TryFrom<String> for ProfileName`; a text is counted by its characters.
unfoldable pub profile_name_try_from : Text → Result Error Text
profile_name_try_from [] = err (Error.user "Profile name must not be empty")
profile_name_try_from (c ∷ cs) =
    if ltb max_profile_name_length (length (c ∷ cs))
    then err (Error.user "Profile name too long. Please limit to 30 characters")
    else ok (c ∷ cs)

has_profile_uuid : Text → Profile → Bool
has_profile_uuid uuid p = text_eq p.uuid uuid

-- The primary key, the unique uuid, and the reference to a picture
unfoldable pub insert_profile_row : {T : Type 0} → Profile → Db T → Result Error (Db T)
unfolding has_profile_id has_profile_uuid has_picture_id
insert_profile_row p db =
    if exists (has_profile_id p.deterministic_id) db.wallet.profiles
      || exists (has_profile_uuid p.uuid) db.wallet.profiles
      || not (exists (has_picture_id p.picture_id) db.wallet.profile_pictures)
    then err database_error
    else ok (record db { wallet = record db.wallet { profiles = db.wallet.profiles ++ (p ∷ []) } })

is_key_of : Text → AsymmetricKey → Bool
is_key_of id k = text_eq k.profile_id id

is_active : Text → Option LocalSettings → Bool
is_active id none = Bool.false
is_active id (some s) = text_eq s.profile_id id

-- A profile that a key or the settings refer to is not deleted.
unfoldable pub remove_profile : {T : Type 0} → Text → Db T → Result Error (Db T)
unfolding is_key_of is_active has_profile_id
remove_profile id db =
    if exists (is_key_of id) db.wallet.asymmetric_keys || is_active id db.local_settings
    then err database_error
    else ok (record db {
      wallet = record db.wallet {
        profiles = filter (λ p. not (has_profile_id id p)) db.wallet.profiles;
      };
    })

set_picture : Text → Profile → Profile
set_picture picture_id p = record p { picture_id = picture_id }

unfoldable pub change_picture : {T : Type 0} → Text → Text → Db T → Result Error (Db T)
unfolding has_profile_id has_picture_id set_picture
change_picture id picture_id db =
    if exists (has_picture_id picture_id) db.wallet.profile_pictures
    then ok (record db {
      wallet = record db.wallet {
        profiles = update_rows (has_profile_id id) (set_picture picture_id) db.wallet.profiles;
      };
    })
    else err database_error

set_profile_uuid : Text → Profile → Profile
set_profile_uuid uuid p = record p { uuid = uuid }

unfoldable pub change_uuid : {T : Type 0} → Text → Text → Db T → Result Error (Db T)
unfolding has_profile_id has_profile_uuid set_profile_uuid
change_uuid id uuid db =
    if exists (λ p. has_profile_uuid uuid p && not (has_profile_id id p)) db.wallet.profiles
    then err database_error
    else ok (record db {
      wallet = record db.wallet {
        profiles = update_rows (has_profile_id id) (set_profile_uuid uuid) db.wallet.profiles;
      };
    })

module _ ⦃sys : System⦄ where
  -- `Profile::list_all`, `insert`, `delete`, `set_picture_id` and `set_uuid`
  unfoldable pub list_all_profiles : App (List Profile)
  list_all_profiles = query (λ db. ok db.wallet.profiles)

  unfoldable pub insert_profile : Profile → App (Unit {0})
  unfolding insert_profile_row write
  insert_profile p = write (insert_profile_row p)

  unfoldable pub delete_profile : Text → App (Unit {0})
  unfolding remove_profile write
  delete_profile id = write (remove_profile id)

  unfoldable pub set_picture_id : Text → Text → App (Unit {0})
  unfolding change_picture write
  set_picture_id id picture_id = write (change_picture id picture_id)

  unfoldable pub set_uuid : Text → Text → App (Unit {0})
  unfolding change_uuid write
  set_uuid id uuid = write (change_uuid id uuid)

  module _ ⦃eth : EthImpl⦄ where
    -- the ids of `ProfileEntity` and of the deprecated `AccountEntity`
    unfoldable pub profile_entity_id : EntityName → Text → Result Error Text
    profile_entity_id e uuid = deterministic_id e (uuid ∷ [])

    -- `Profile::create`
    unfoldable pub create_profile : Text → Text → App Text
    unfolding insert_profile profile_entity_id
    create_profile name picture_id = do
      uuid ← on_clock sys.os.new_uuid
      id ← lift (profile_entity_id EntityName.profile uuid)
      now ← on_clock sys.os.rfc3339_timestamp
      insert_profile (record {
        deterministic_id = id;
        uuid = uuid;
        name = name;
        picture_id = picture_id;
        created_at = now;
        updated_at = none;
      })
      pure id

    unfoldable pub create_eth_profile : Text → Text → App Text
    unfolding create_profile
    create_eth_profile name picture_name = do
      picture_id ← insert_bundled picture_name
      profile_id ← create_profile name picture_id
      create_eth_key_and_address (record {
        profile_id = profile_id;
        chain_id = default_wallet_chain;
        dapp_id = none;
        is_profile_wallet = Bool.true;
      })
      pure profile_id
