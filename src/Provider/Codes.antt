-- ===== src/Provider/Codes.antt =====
-- core/src/protocols/eth/in_page_provider/dapp_key_provider.rs: the error codes of the provider, and
-- how it reads requests, chain ids and values.
use sealvault.Prelude.{
  ℕ, Text, String, [], ◌∷◌, Option, none, some, ltb, ◌+◌, ◌==◌, ◌&&◌, if◌then◌else◌,
}
use sealvault.Prelude.Int.{ℤ, pos, negsuc}
use sealvault.Prelude.Result.{Result, ok, err, ok_or, ◌>>=◌}
use sealvault.Error.{Error}
use sealvault.Ethereum.Chains.{ChainId, to_u64, try_from_u64}
use sealvault.Provider.{ProviderImpl, RawRequest, Payload}

pub data InPageErrorCode : Type 0 where
  parse_error : InPageErrorCode
  invalid_request : InPageErrorCode
  method_not_found : InPageErrorCode
  invalid_params : InPageErrorCode
  internal_error : InPageErrorCode
  user_rejected : InPageErrorCode
  unauthorized : InPageErrorCode
  unsupported_method : InPageErrorCode
  disconnected : InPageErrorCode
  chain_disconnected : InPageErrorCode

-- `to_i32`, which is also the number of the `ErrorCode` that a code is turned into
unfoldable pub to_i32 : InPageErrorCode → ℤ
to_i32 InPageErrorCode.parse_error = negsuc 32699
to_i32 InPageErrorCode.invalid_request = negsuc 32599
to_i32 InPageErrorCode.method_not_found = negsuc 32600
to_i32 InPageErrorCode.invalid_params = negsuc 32601
to_i32 InPageErrorCode.internal_error = negsuc 32602
to_i32 InPageErrorCode.user_rejected = pos 4001
to_i32 InPageErrorCode.unauthorized = pos 4100
to_i32 InPageErrorCode.unsupported_method = pos 4200
to_i32 InPageErrorCode.disconnected = pos 4900
to_i32 InPageErrorCode.chain_disconnected = pos 4901

-- An error of JSON-RPC with a message
abbrev pub rpc_error : InPageErrorCode → String → Error
rpc_error code message = Error.json_rpc (to_i32 code) message

abbrev pub max_request_bytes : ℕ
max_request_bytes = 1000000

-- The bytes of a character in UTF-8
char_bytes : ℕ → ℕ
char_bytes c = if ltb c 128 then 1 else (if ltb c 2048 then 2 else (if ltb c 65536 then 3 else 4))

-- `as_bytes().len()`
byte_length : Text → ℕ
unfolding char_bytes
byte_length [] = 0
byte_length (c ∷ cs) = char_bytes c + byte_length cs

abbrev pub invalid_raw_request : Error
invalid_raw_request = Error.retriable "Could not parse JSON-RPC request"

abbrev pub unsupported_method_error : Error
unsupported_method_error =
    rpc_error InPageErrorCode.unsupported_method "This method is not supported"

abbrev pub invalid_address_error : Error
invalid_address_error = rpc_error InPageErrorCode.invalid_params "Invalid address"

-- `strip_prefix("0x")`
strip_0x_hex_prefix : Text → Option Text
strip_0x_hex_prefix [] = none
strip_0x_hex_prefix (a ∷ []) = none
strip_0x_hex_prefix (a ∷ (b ∷ s)) = if a == 48 && b == 120 then some s else none

supported : Result Error ChainId → Result Error ChainId
supported (ok c) = ok c
supported (err e) = err (rpc_error InPageErrorCode.invalid_params "Unsupported chain id")

module _ ⦃impl : ProviderImpl⦄ where
  -- `From<InPageErrorCode> for Error`
  unfoldable pub code_error : InPageErrorCode → Error
  code_error code = rpc_error code (impl.error_code_message (to_i32 code))

  -- The limit is on the bytes of the text.
  unfoldable pub parse_request : Text → Result Error RawRequest
  unfolding byte_length
  parse_request raw =
      if ltb max_request_bytes (byte_length raw)
      then err invalid_raw_request
      else ok_or invalid_raw_request (impl.request_from_str raw)

  unfoldable pub to_value : Payload → Result Error Text
  to_value p = ok_or (Error.fatal "Failed to serialize json value") (impl.to_json p)

  unfoldable pub parse_0x_chain_id : Text → Result Error ChainId
  unfolding strip_0x_hex_prefix supported
  parse_0x_chain_id s = do
    hex ←
        ok_or (rpc_error InPageErrorCode.invalid_params "Message must start with 0x")
          (strip_0x_hex_prefix s)
    n ← ok_or (rpc_error InPageErrorCode.invalid_params "Invalid U64") (impl.u64_from_hex hex)
    supported (try_from_u64 n)

  unfoldable pub chain_id_json : ChainId → Result Error Text
  unfolding to_value
  chain_id_json c = to_value (Payload.u64 (to_u64 c))
