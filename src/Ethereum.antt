-- ===== src/Ethereum.antt =====
-- core/src/protocols/eth: chains, amounts and the data that is kept for a chain, and the crates
-- that the code calls for hashes, keys, JSON and URLs, as an interface.
pub mod Chains
use sealvault.Prelude.{Text, ℕ, Option, [], ◌∷◌, drop, ◌==◌, if◌then◌else◌}
use sealvault.Prelude.Result.{Result, ok, err, ◌>>=◌}
use sealvault.Error.{Error}
use sealvault.Ethereum.Chains.{ChainId, ChainSettings}

-- `url::Host` and `url::Origin`, with the scheme, the host and the port
pub data Host : Type 0 where
  domain : Text → Host
  ip : Text → Host

pub data Origin : Type 0 where
  tuple : Text → Host → ℕ → Origin
  opaque : ℕ → Origin

pub record Url : Type 0 where
  pub as_str : Text
  pub origin : Origin

-- What the code calls in the crates `blake3`, `data_encoding`, `serde_json`, `url`, `publicsuffix`,
-- `k256`, `sha3` and `ethers`. A secret key and a public key are given by their bytes.
pub record EthImpl : Type 0 where
  pub blake3 : Text → Text
  pub base32_nopad : Text → Text
  -- `JsonValue::convert_from` with the canonical text, and `convert_into`
  pub protocol_data_json : ChainId → Result Error Text
  pub protocol_data_from_json : Text → Result Error ChainId
  pub chain_settings_json : ChainSettings → Result Error Text
  pub chain_settings_from_json : Text → Result Error ChainSettings
  pub ascii_serialization : Origin → Text
  pub psl_domain : Text → Option Text
  pub from_utf8 : Text → Result Error Text
  pub to_sec1_der : Text → Result Error Text
  pub from_sec1_der : Text → Result Error Text
  pub public_key : Text → Text
  pub to_public_key_der : Text → Result Error Text
  pub from_public_key_der : Text → Result Error Text
  pub to_encoded_point : Text → Text
  pub keccak256 : Text → Text
  -- `load_profile_pic`: a picture that the build bundles
  pub profile_pic : Text → Result Error Text

module _ ⦃eth : EthImpl⦄ where
  -- `ChecksumAddress::new`: the last 20 bytes of the hash. An encoded point is never empty.
  point_address : Text → Result Error Text
  point_address [] = err (Error.fatal "Expected uncompressed public key.")
  point_address (prefix ∷ point) =
      if prefix == 4
      then ok (drop 12 (eth.keccak256 point))
      else err (Error.fatal "Expected uncompressed public key.")

  unfoldable pub checksum_address : Text → Result Error Text
  unfolding point_address
  checksum_address public_key = point_address (eth.to_encoded_point public_key)

-- core/src/protocols/eth/signing_key.rs
pub record SigningKey : Type 0 where
  pub chain_id : ChainId
  pub secret_key : Text
  pub address : Text

module _ ⦃eth : EthImpl⦄ where
  unfoldable pub signing_key : Text → ChainId → Result Error SigningKey
  unfolding checksum_address
  signing_key secret c = do
    address ← checksum_address (eth.public_key secret)
    ok (record { chain_id = c; secret_key = secret; address = address })
