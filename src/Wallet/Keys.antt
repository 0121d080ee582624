-- ===== src/Wallet/Keys.antt =====
-- core/src/db/models/asymmetric_key.rs: the signing keys of a profile, for its wallet and for its
-- dapps, encrypted under a data encryption key.
use sealvault.Prelude.{
  Text, Bool, ◌&&◌, ◌||◌, not, List, [], ◌∷◌, ◌++◌, Option, none, some, text_eq, if◌then◌else◌,
}
use sealvault.Prelude.Result.{Result, ok, err, ok_or, ◌>>=◌ as and_then}
use sealvault.Prelude.Exec.{◌>>=◌, ◌>>◌, pure, lift}
use sealvault.Error.{Error}
use sealvault.Encryption.EncryptionOutput
use sealvault.Encryption.EncryptionOutput.{EncryptionOutput}
use sealvault.Ethereum.{EthImpl}
use sealvault.Db.{Db, DekRow, record_not_found, database_error}
use sealvault.System.{System, App, on_clock, query, update, write}
use sealvault.Wallet.{AsymmetricKey, EllipticCurve, Wallet}
use sealvault.Wallet.Ids.{EntityName, deterministic_id}
use sealvault.Wallet.Dapps.{has_dapp_id, has_profile_id, is_dapp_key}
use sealvault.Wallet.Rows.{first, exists, update_rows}

-- The builder with its defaults is written out at each use.
pub record NewAsymmetricKey : Type 0 where
  pub profile_id : Text
  pub dek_id : Text
  pub public_key : Text
  pub elliptic_curve : EllipticCurve
  pub encrypted_der : EncryptionOutput
  pub is_profile_wallet : Bool
  pub dapp_id : Option Text

unfoldable pub has_key_id : Text → AsymmetricKey → Bool
has_key_id id k = text_eq k.deterministic_id id

has_public_key : Text → AsymmetricKey → Bool
has_public_key pk k = text_eq k.public_key pk

is_secp256k1 : EllipticCurve → Bool
is_secp256k1 EllipticCurve.secp256k1 = Bool.true

has_dek_id : Text → DekRow → Bool
has_dek_id id r = text_eq r.deterministic_id id

-- A nullable foreign key
refers_to_dapp : Option Text → Wallet → Bool
unfolding has_dapp_id
refers_to_dapp none w = Bool.true
refers_to_dapp (some id) w = exists (has_dapp_id id) w.dapps

-- A key of a dapp is not the key of a wallet.
is_exclusive : AsymmetricKey → Bool
is_exclusive k = elim k.dapp_id [ none ↦ Bool.true | some id ↦ not k.is_profile_wallet ]

-- The primary key, the unique public key, the references to a profile, a key and a dapp, and the check
-- that the two uses of a key exclude each other
unfoldable pub insert_key : {T : Type 0} → AsymmetricKey → Db T → Result Error (Db T)
unfolding has_key_id has_public_key has_profile_id has_dek_id refers_to_dapp is_exclusive
insert_key k db =
    if exists (has_key_id k.deterministic_id) db.wallet.asymmetric_keys
      || exists (has_public_key k.public_key) db.wallet.asymmetric_keys
      || not (exists (has_profile_id k.profile_id) db.wallet.profiles)
      || not (exists (has_dek_id k.dek_id) db.data_encryption_keys)
      || not (refers_to_dapp k.dapp_id db.wallet)
      || not (is_exclusive k)
    then err database_error
    else ok (record db {
      wallet = record db.wallet { asymmetric_keys = db.wallet.asymmetric_keys ++ (k ∷ []) };
    })

-- `AsymmetricKey::fetch_id_for_dapp`
unfoldable pub find_key_for_dapp : {T : Type 0} → Text → Text → Db T → Result Error Text
unfolding is_dapp_key
find_key_for_dapp profile_id dapp_id db =
    and_then
      (ok_or record_not_found (first (is_dapp_key profile_id dapp_id) db.wallet.asymmetric_keys))
      λ k. ok k.deterministic_id

move_key : Text → AsymmetricKey → AsymmetricKey
move_key profile_id k = record k { profile_id = profile_id }

unfoldable pub move_keys : {T : Type 0} → Text → Text → Db T → Db T
unfolding has_key_id move_key
move_keys id profile_id db = record db {
  wallet = record db.wallet {
    asymmetric_keys = update_rows (has_key_id id) (move_key profile_id) db.wallet.asymmetric_keys;
  };
}

module _ ⦃eth : EthImpl⦄ where
  is_key_on_curve : Text → AsymmetricKey → Bool
  unfolding has_key_id is_secp256k1
  is_key_on_curve id k = has_key_id id k && is_secp256k1 k.elliptic_curve

  unfoldable pub find_eth_public_key : {T : Type 0} → Text → Db T → Result Error Text
  unfolding is_key_on_curve
  find_eth_public_key id db =
      and_then (ok_or record_not_found (first (is_key_on_curve id) db.wallet.asymmetric_keys))
        λ k. eth.from_public_key_der k.public_key

module _ ⦃sys : System⦄ ⦃eth : EthImpl⦄ where
  -- `AsymmetricKey::list_all`
  unfoldable pub list_all_keys : App (List AsymmetricKey)
  list_all_keys = query (λ db. ok db.wallet.asymmetric_keys)

  unfoldable pub fetch_eth_public_key : Text → App Text
  unfolding find_eth_public_key
  fetch_eth_public_key id = query (find_eth_public_key id)

  unfoldable pub fetch_id_for_dapp : Text → Text → App Text
  unfolding find_key_for_dapp
  fetch_id_for_dapp profile_id dapp_id = query (find_key_for_dapp profile_id dapp_id)

  -- `AsymmetricKey::set_profile_id`, for the key with this id
  unfoldable pub set_profile_id : Text → Text → App (Unit {0})
  unfolding move_keys
  set_profile_id id profile_id = update (move_keys id profile_id)

  -- `NewAsymmetricKey::insert`
  unfoldable pub insert_new_key : NewAsymmetricKey → App Text
  unfolding insert_key write
  insert_new_key k = do
    id ← lift (deterministic_id EntityName.asymmetric_key (k.public_key ∷ []))
    now ← on_clock sys.os.rfc3339_timestamp
    write (
        insert_key (record {
          deterministic_id = id;
          profile_id = k.profile_id;
          dek_id = k.dek_id;
          elliptic_curve = k.elliptic_curve;
          public_key = k.public_key;
          encrypted_der = EncryptionOutput.to_vec k.encrypted_der;
          is_profile_wallet = k.is_profile_wallet;
          dapp_id = k.dapp_id;
          created_at = now;
          updated_at = none;
        }))
    pure id
