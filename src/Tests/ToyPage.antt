-- ===== src/Tests/ToyPage.antt =====
-- The small system with a page: hashes, keys and JSON that can be computed by hand, and a database
-- with a profile, in which the dapp of the page is or is not approved.
use sealvault.Prelude.{
  ℕ, ◌+◌, ◌%◌, ◌==◌, if◌then◌else◌, Text, codes, false, Option, none, some, [], ◌∷◌, ◌++◌,
}
use sealvault.Prelude.Result.{Result, ok, err}
use sealvault.Error.{Error}
use sealvault.Ethereum.{EthImpl, Host, Origin, Url}
use sealvault.Ethereum.Chains.{ChainId, ChainSettings, to_u64, try_from_u64}
use sealvault.System.{World}
use sealvault.Wallet.{Wallet, Chain, Profile, BlockchainProtocol, EllipticCurve}
use sealvault.Wallet.Sessions.{LocalDappSession}
use sealvault.Provider.{ProviderImpl, Page, Payload}
use sealvault.Provider.Request.{InPageRequest, TransactionRequest}
use sealvault.Tests.Toy.{toy, repeat, toy_db, toy_keychain, tag_of, empty_wallet}

abbrev sum : Text → ℕ
sum [] = 0
sum (c ∷ cs) = c + sum cs

-- 52 letters, of which the first depends on the text
abbrev pub toy_base32 : Text → Text
toy_base32 t = (65 + (sum t) % 26) ∷ repeat 51 65

abbrev read_chain : Text → Result Error ChainId
read_chain [] = err (Error.fatal "no chain")
read_chain (n ∷ t) = try_from_u64 n

abbrev read_settings : Text → Result Error ChainSettings
read_settings [] = err (Error.fatal "no settings")
read_settings (n ∷ t) =
    ok (record {
      default_dapp_allotment = record { chain_id = ChainId.polygon_mainnet; amount = n };
    })

abbrev pub toy_eth : EthImpl
toy_eth = record {
  blake3 = λ t. t;
  base32_nopad = toy_base32;
  protocol_data_json = λ c. ok (to_u64 c ∷ []);
  protocol_data_from_json = read_chain;
  chain_settings_json = λ s. ok (s.default_dapp_allotment.amount ∷ []);
  chain_settings_from_json = read_settings;
  ascii_serialization = λ o. codes "origin";
  psl_domain = λ d. some d;
  from_utf8 = λ t. ok t;
  to_sec1_der = λ t. ok t;
  from_sec1_der = λ t. ok t;
  public_key = λ t. t;
  to_public_key_der = λ t. ok t;
  from_public_key_der = λ t. ok t;
  to_encoded_point = λ t. 4 ∷ t;
  keccak256 = λ t. t;
  profile_pic = λ t. ok t;
}

abbrev pub toy_address : Text
toy_address = repeat 20 3

abbrev pub toy_tx : TransactionRequest
toy_tx = record { nonce = some 7; fields = codes "tx" }

-- The method of a request is its first number.
abbrev read_request : Text → Result Text InPageRequest
read_request [] = err (codes "unknown variant")
read_request (n ∷ t) =
    if n == 1
    then ok InPageRequest.eth_accounts
    else if n == 2
    then ok InPageRequest.eth_chain_id
    else if n == 3
    then ok (InPageRequest.personal_sign (codes "hi") toy_address none)
    else if n == 4
    then ok (InPageRequest.eth_send_transaction toy_tx)
    else ok InPageRequest.eth_gas_price

abbrev json : Payload → Text
json (Payload.u64 n) = n ∷ []
json (Payload.text t) = t
json (Payload.addresses l) = codes "addresses"
json Payload.null = codes "null"
json (Payload.connect n v a) = a

abbrev first_of : Text → Option ℕ
first_of [] = none
first_of (n ∷ t) = some n

abbrev pub toy_impl : ProviderImpl
toy_impl = record {
  request_from_str = λ t. some (record { id = codes "1"; method = t; params = [] });
  in_page_request_from_value = λ m p. read_request m;
  to_request_params = λ r. ok (codes "method", []);
  to_json = λ p. some (json p);
  string_value = λ t. t;
  message_to_json = λ m. some m.data_json;
  response = λ id t. id ++ t;
  error_response = λ id c m. id;
  hex_encode = λ t. t;
  u64_from_hex = first_of;
  display_amount = λ a. codes "0.1";
  symbol = λ c. codes "MATIC";
  keccak_hex = λ t. t;
  join_url = λ a b. some (a ++ b);
  parse_message = λ t. "unknown variant";
  error_code_message = λ z. "error";
  favicon = λ u l. ok none;
  remote = λ c l. ok (codes "answer");
  sign_bytes = λ k m. ok m;
}

abbrev pub toy_url : Url
toy_url = record {
  as_str = codes "https://example.com/";
  origin = Origin.tuple (codes "https") (Host.domain (codes "example.com")) 443;
}

abbrev pub toy_dapp_id : Text
toy_dapp_id = 81 ∷ repeat 51 65

abbrev pub polygon_id : Text
polygon_id = 88 ∷ repeat 51 65

abbrev polygon : Chain
polygon = record {
  deterministic_id = polygon_id;
  protocol = BlockchainProtocol.ethereum;
  protocol_data = 137 ∷ [];
  user_settings = 5 ∷ [];
  created_at = codes "then";
  updated_at = none;
}

abbrev profile : Profile
profile = record {
  deterministic_id = codes "profile";
  uuid = codes "u";
  name = codes "Default";
  picture_id = codes "picture";
  created_at = codes "then";
  updated_at = none;
}

-- The dapp of the page is not known.
abbrev pub unknown_wallet : Wallet
unknown_wallet = record empty_wallet { chains = polygon ∷ []; profiles = profile ∷ [] }

-- The dapp of the page has a key, an address on one chain and a session.
abbrev pub approved_wallet : Wallet
approved_wallet = record unknown_wallet {
  dapps =
      record {
        deterministic_id = toy_dapp_id;
        identifier = codes "example.com";
        url = codes "https://example.com/";
        created_at = codes "then";
        updated_at = none;
      }
      ∷ [];
  asymmetric_keys =
      record {
        deterministic_id = codes "key";
        profile_id = codes "profile";
        dek_id = codes "dek";
        elliptic_curve = EllipticCurve.secp256k1;
        public_key = repeat 32 3;
        encrypted_der = repeat 24 5 ++ (repeat 32 3 ++ tag_of (repeat 32 9));
        is_profile_wallet = false;
        dapp_id = some toy_dapp_id;
        created_at = codes "then";
        updated_at = none;
      }
      ∷ [];
  addresses =
      record {
        deterministic_id = codes "address";
        asymmetric_key_id = codes "key";
        chain_id = polygon_id;
        address = toy_address;
        created_at = codes "then";
        updated_at = none;
      }
      ∷ [];
  local_dapp_sessions =
      record {
        uuid = codes "session";
        address_id = codes "address";
        dapp_id = toy_dapp_id;
        last_used_at = codes "then";
        created_at = codes "then";
        updated_at = codes "then";
      }
      ∷ [];
}

abbrev pub toy_session : LocalDappSession
toy_session = record {
  uuid = codes "session";
  profile_id = codes "profile";
  address_id = codes "address";
  address = toy_address;
  dapp_id = toy_dapp_id;
  dapp_human_identifier = codes "example.com";
  chain_id = ChainId.polygon_mainnet;
}

abbrev pub world_with : Wallet → World ⦃sys = toy⦄
world_with wallet = record {
  db = record (toy_db 6) { wallet = wallet };
  db_file = toy_db 0;
  keychain = toy_keychain;
  storage = [];
  os = tt;
}

abbrev pub unknown_page : Page ⦃sys = toy⦄
unknown_page = record { world = world_with unknown_wallet; calls = [] }

abbrev pub approved_page : Page ⦃sys = toy⦄
approved_page = record { world = world_with approved_wallet; calls = [] }
