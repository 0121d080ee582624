-- ===== src/Wallet/Pictures.antt =====
-- core/src/db/models/profile_picture.rs: the pictures of profiles, which their hash identifies.
use sealvault.Prelude.{
  Text, Bool, not, ◌||◌, ◌&&◌, List, [], ◌∷◌, ◌++◌, Option, none, some, text_eq, if◌then◌else◌,
}
use sealvault.Prelude.Result.{Result, ok, err, ok_or, ◌>>=◌ as and_then}
use sealvault.Prelude.Exec.{◌>>=◌, ◌>>◌, pure, lift}
use sealvault.Error.{Error}
use sealvault.Ethereum.{EthImpl}
use sealvault.Db.{Db, record_not_found, database_error}
use sealvault.System.{System, App, on_clock, query, write}
use sealvault.Wallet.{ProfilePicture, Profile}
use sealvault.Wallet.Ids.{EntityName, deterministic_id}
use sealvault.Wallet.Rows.{first, exists, filter, update_rows}

unfoldable pub has_picture_id : Text → ProfilePicture → Bool
has_picture_id id p = text_eq p.deterministic_id id

has_image_hash : Text → ProfilePicture → Bool
has_image_hash hash p = text_eq p.image_hash hash

has_picture : Text → Profile → Bool
has_picture id p = text_eq p.picture_id id

-- The names that are not null
image_names : List ProfilePicture → List Text
image_names [] = []
image_names (p ∷ ps) =
    let rest = image_names ps in elim p.image_name [ none ↦ rest | some name ↦ name ∷ rest ]

-- The primary key, and the unique hash
unfoldable pub insert_picture : {T : Type 0} → ProfilePicture → Db T → Result Error (Db T)
unfolding has_picture_id has_image_hash
insert_picture p db =
    if exists (has_picture_id p.deterministic_id) db.wallet.profile_pictures
      || exists (has_image_hash p.image_hash) db.wallet.profile_pictures
    then err database_error
    else ok (record db {
      wallet = record db.wallet { profile_pictures = db.wallet.profile_pictures ++ (p ∷ []) };
    })

-- A picture that a profile refers to is not deleted.
unfoldable pub remove_picture : {T : Type 0} → Text → Db T → Result Error (Db T)
unfolding has_picture_id has_picture
remove_picture id db =
    if exists (has_picture id) db.wallet.profiles
    then err database_error
    else ok (record db {
      wallet = record db.wallet {
        profile_pictures = filter (λ p. not (has_picture_id id p)) db.wallet.profile_pictures;
      };
    })

set_hash : Text → ProfilePicture → ProfilePicture
set_hash hash p = record p { image_hash = hash }

unfoldable pub change_hash : {T : Type 0} → Text → Text → Db T → Result Error (Db T)
unfolding has_picture_id has_image_hash set_hash
change_hash id hash db =
    if exists (λ p. has_image_hash hash p && not (has_picture_id id p)) db.wallet.profile_pictures
    then err database_error
    else ok (record db {
      wallet = record db.wallet {
        profile_pictures =
            update_rows (has_picture_id id) (set_hash hash) db.wallet.profile_pictures;
      };
    })

unfoldable pub find_image : {T : Type 0} → Text → Db T → Result Error Text
unfolding has_picture_id
find_image id db =
    and_then (ok_or record_not_found (first (has_picture_id id) db.wallet.profile_pictures))
      λ p. ok p.image

module _ ⦃sys : System⦄ where
  -- The operations of `ProfilePicture`
  unfoldable pub list_all_pictures : App (List ProfilePicture)
  list_all_pictures = query (λ db. ok db.wallet.profile_pictures)

  unfoldable pub list_picture_names : App (List Text)
  unfolding image_names
  list_picture_names = query (λ db. ok (image_names db.wallet.profile_pictures))

  unfoldable pub fetch_image : Text → App Text
  unfolding find_image
  fetch_image id = query (find_image id)

  unfoldable pub delete_picture : Text → App (Unit {0})
  unfolding remove_picture write
  delete_picture id = write (remove_picture id)

  unfoldable pub set_image_hash : Text → Text → App (Unit {0})
  unfolding change_hash write
  set_image_hash id hash = write (change_hash id hash)

  unfoldable pub insert_picture_row : ProfilePicture → App (Unit {0})
  unfolding insert_picture write
  insert_picture_row p = write (insert_picture p)

  module _ ⦃eth : EthImpl⦄ where
    -- the ids of `ProfilePictureEntity` and of the deprecated `AccountPictureEntity`
    unfoldable pub picture_entity_id : EntityName → Text → Result Error Text
    picture_entity_id e hash = deterministic_id e (hash ∷ [])

    unfoldable pub create_picture : Text → Text → Option Text → App Text
    unfolding insert_picture_row picture_entity_id
    create_picture hash image name = do
      id ← lift (picture_entity_id EntityName.profile_picture hash)
      now ← on_clock sys.os.rfc3339_timestamp
      insert_picture_row (record {
        deterministic_id = id;
        image_name = name;
        image_hash = hash;
        image = image;
        created_at = now;
        updated_at = none;
      })
      pure id

    unfoldable pub insert_bundled : Text → App Text
    unfolding create_picture
    insert_bundled name = do
      image ← lift (eth.profile_pic name)
      create_picture (eth.blake3 image) image (some name)
