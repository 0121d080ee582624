-- ===== src/Wallet/Addresses/Signing.antt =====
-- core/src/db/models/address.rs: new signing keys with their address, the key that signs for an
-- address, and the searches by a blockchain address.
use sealvault.Prelude.{
  Text, Bool, ◌&&◌, List, [], ◌∷◌, Option, none, some, String, text_eq, if◌then◌else◌,
}
use sealvault.Prelude.Result.{Result, ok, err, ok_or, ◌>>=◌ as and_then}
use sealvault.Prelude.Exec.{◌>>=◌, pure, raise, lift}
use sealvault.Error.{Error}
use sealvault.Encryption.KeyName.{KeyName, from_str}
use sealvault.Encryption.Keys.{DataEncryptionKey, encrypt_secret, decrypt_secret, sk_kek}
use sealvault.Encryption.EncryptionOutput
use sealvault.Encryption.EncryptionOutput.{EncryptionOutput}
use sealvault.Ethereum.{EthImpl, SigningKey, checksum_address, signing_key}
use sealvault.Ethereum.Chains.{ChainId}
use sealvault.Db.{Db, DekRow, record_not_found}
use sealvault.System.{System, App, on_clock, query}
use sealvault.Wallet.{Address, AsymmetricKey, EllipticCurve, Wallet}
use sealvault.Wallet.Chains.{has_chain_id, fetch_or_create_eth_chain_id}
use sealvault.Wallet.Keys.{has_key_id, insert_new_key}
use sealvault.Wallet.Addresses.{find_address, insert_eth, fetch_or_create_for_eth_chain}
use sealvault.Wallet.Rows.{first, exists, filter}
use sealvault.Backup.Setup.{fetch_dek}

-- `CreateEthAddressParams`
pub record CreateEthAddressParams : Type 0 where
  pub profile_id : Text
  pub chain_id : ChainId
  pub dapp_id : Option Text
  pub is_profile_wallet : Bool

has_eth_address : Text → Address → Bool
has_eth_address address a = text_eq a.address address

-- The sanity check of `Address::fetch_by_eth_address`: one key for all rows
one_key : Text → List Address → Bool
one_key key_id [] = Bool.true
one_key key_id (a ∷ rows) = text_eq a.asymmetric_key_id key_id && one_key key_id rows

address_ids : List Address → List Text
address_ids [] = []
address_ids (a ∷ rows) = a.deterministic_id ∷ address_ids rows

ids_of_one_key : List Address → Result Error (List Text)
unfolding one_key address_ids
ids_of_one_key [] = ok []
ids_of_one_key (a ∷ rows) =
    if one_key a.asymmetric_key_id rows
    then ok (address_ids (a ∷ rows))
    else err (Error.fatal "Multiple keys with the same checksum address")

unfoldable pub find_by_eth_address : {T : Type 0} → Text → Db T → Result Error (List Text)
unfolding has_eth_address ids_of_one_key
find_by_eth_address address db =
    ids_of_one_key (filter (has_eth_address address) db.wallet.addresses)

is_wallet_key : Text → Text → AsymmetricKey → Bool
unfolding has_key_id
is_wallet_key key_id profile_id k =
    has_key_id key_id k && text_eq k.profile_id profile_id && k.is_profile_wallet

is_wallet_address : Text → Text → Wallet → Address → Bool
unfolding is_wallet_key
is_wallet_address profile_id chain_id w a =
    text_eq a.chain_id chain_id
    && exists (is_wallet_key a.asymmetric_key_id profile_id) w.asymmetric_keys

unfoldable pub find_eth_wallet_id : {T : Type 0} → Text → Text → Db T → Result Error Text
unfolding is_wallet_address
find_eth_wallet_id profile_id chain_id db =
    and_then
      (ok_or record_not_found
        (first (is_wallet_address profile_id chain_id db.wallet) db.wallet.addresses))
      λ a. ok a.deterministic_id

has_dek_id : Text → DekRow → Bool
has_dek_id id r = text_eq r.deterministic_id id

-- What `Address::fetch_eth_signing_key` selects: the name of the key that encrypts the signing key,
-- its encryption, and the chain. Every chain is an Ethereum chain.
pub record SigningRow : Type 0 where
  pub dek_name : String
  pub encrypted_der : EncryptionOutput
  pub chain_id : ChainId

unknown_dek_name : Error
unknown_dek_name = Error.fatal "Unknown DEK name"

module _ ⦃eth : EthImpl⦄ where
  unfoldable pub find_signing_row : {T : Type 0} → Text → Db T → Result Error SigningRow
  unfolding find_address has_dek_id has_key_id has_chain_id
  find_signing_row id db = and_then (find_address id db) λ a.
      and_then
        (ok_or record_not_found (first (has_key_id a.asymmetric_key_id) db.wallet.asymmetric_keys))
        λ k.
          and_then (ok_or record_not_found (first (has_dek_id k.dek_id) db.data_encryption_keys))
            λ dek.
              and_then (ok_or record_not_found (first (has_chain_id a.chain_id) db.wallet.chains))
                λ c. and_then (EncryptionOutput.try_from k.encrypted_der) λ output.
                  and_then (eth.protocol_data_from_json c.protocol_data) λ chain.
                    ok (record { dek_name = dek.name; encrypted_der = output; chain_id = chain })

  -- `EthereumAsymmetricKey::from_encrypted_der` of core/src/signatures/asymmetric_key.rs
  unfoldable pub from_encrypted_der :
      ⦃sys : System⦄ → EncryptionOutput → DataEncryptionKey → Result Error Text
  from_encrypted_der output dek = and_then (decrypt_secret dek output) eth.from_sec1_der

module _ ⦃sys : System⦄ ⦃eth : EthImpl⦄ where
  -- the rows of a new key and of its address
  unfoldable pub store_new_key :
      CreateEthAddressParams → Text → Text → EncryptionOutput → Text → App Text
  store_new_key params dek_id public_key encrypted secret = do
    key_id ← insert_new_key (record {
      profile_id = params.profile_id;
      dek_id = dek_id;
      public_key = public_key;
      elliptic_curve = EllipticCurve.secp256k1;
      encrypted_der = encrypted;
      is_profile_wallet = params.is_profile_wallet;
      dapp_id = params.dapp_id;
    })
    address ← lift (checksum_address (eth.public_key secret))
    insert_eth (record { asymmetric_key_id = key_id; address = address }) params.chain_id

  unfoldable pub create_eth_key_and_address : CreateEthAddressParams → App Text
  create_eth_key_and_address params = do
    kek ← sk_kek
    (dek_id, sk_dek) ← fetch_dek KeyName.sk_data_encryption_key kek
    secret ← on_clock sys.os.random_secret_key
    der ← lift (eth.to_sec1_der secret)
    encrypted ← encrypt_secret sk_dek der
    public_der ← lift (eth.to_public_key_der (eth.public_key secret))
    store_new_key params dek_id public_der encrypted secret

  known_dek : Option KeyName → App KeyName
  unfolding unknown_dek_name
  known_dek none = raise unknown_dek_name
  known_dek (some name) = pure name

  unfoldable pub fetch_eth_signing_key : Text → App SigningKey
  unfolding find_signing_row from_encrypted_der known_dek
  fetch_eth_signing_key id = do
    row ← query (find_signing_row id)
    dek_name ← known_dek (from_str row.dek_name)
    kek ← sk_kek
    (dek_id, sk_dek) ← fetch_dek dek_name kek
    secret ← lift (from_encrypted_der row.encrypted_der sk_dek)
    lift (signing_key secret row.chain_id)

  unfoldable pub fetch_eth_wallet_id : Text → ChainId → App Text
  unfolding find_eth_wallet_id
  fetch_eth_wallet_id profile_id c = do
    chain_id ← fetch_or_create_eth_chain_id c
    query (find_eth_wallet_id profile_id chain_id)

  on_chain : ChainId → List Text → App (Option Text)
  on_chain c [] = pure none
  on_chain c (id ∷ ids) = do on ← fetch_or_create_for_eth_chain id c; pure (some on)

  unfoldable pub fetch_or_create_id_by_address_on_chain : Text → ChainId → App (Option Text)
  unfolding find_by_eth_address on_chain
  fetch_or_create_id_by_address_on_chain address c = do
    ids ← query (find_by_eth_address address)
    on_chain c ids
