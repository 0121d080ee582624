-- ===== src/Provider.antt =====
-- core/src/protocols/eth/in_page_provider: the requests of the pages of dapps. What surrounds the
-- provider is an interface: the crates for JSON, the remote API and the signatures. The calls that
-- it makes to the page, to the user interface and to the remote API are kept in order, the latest
-- first, and the answers of the remote API may depend on them.
pub mod Request
pub mod Codes
pub mod Accounts
pub mod Signing
pub mod Approval
pub mod Dispatch
pub mod Trace
pub mod Frames
pub mod Capabilities
pub mod Unapproved
pub mod Answers
pub mod Signed
use sealvault.Prelude.{ℕ, Text, String, Bool, Option, List, [], ◌∷◌}
use sealvault.Prelude.Int.{ℤ}
use sealvault.Prelude.Result.{Result, ok, err, ok_or}
use sealvault.Prelude.Exec.{Exec, pure}
use sealvault.Error.{Error}
use sealvault.Ethereum.{SigningKey}
use sealvault.Ethereum.Chains.{ChainId, ChainSettings, NativeTokenAmount}
use sealvault.System.{System, World, App}
use sealvault.Wallet.Sessions.{LocalDappSession}
use sealvault.Provider.Request.{InPageRequest, TransactionRequest}

-- What `to_value` turns into JSON
pub data Payload : Type 0 where
  u64 : ℕ → Payload
  text : Text → Payload
  addresses : List Text → Payload
  null : Payload
  connect : ℕ → Text → Text → Payload

pub data ProviderEvent : Type 0 where
  chain_changed : ProviderEvent
  network_changed : ProviderEvent
  seal_vault_connect : ProviderEvent

pub record ProviderMessage : Type 0 where
  pub event : ProviderEvent
  pub data_json : Text

pub record DappApprovalParams : Type 0 where
  pub profile_id : Text
  pub dapp_identifier : Text
  pub favicon : Option Text
  pub amount : Text
  pub transfer_allotment : Bool
  pub token_symbol : Text
  pub chain_display_name : String
  pub chain_id : ℕ
  pub json_rpc_request : Text

-- core/src/ui_callback.rs
pub record DappTransactionResult : Type 0 where
  pub dapp_identifier : Text
  pub chain_display_name : String
  pub explorer_url : Option Text
  pub error_message : Option String

pub record DappAllotmentTransferResult : Type 0 where
  pub dapp_identifier : Text
  pub amount : Text
  pub token_symbol : Text
  pub chain_display_name : String
  pub error_message : Option String

-- What runs in the background, by `rt::spawn`
pub data Task : Type 0 where
  dapp_transaction_result : LocalDappSession → Result Error Text → Task
  personal_sign_callback : LocalDappSession → Task
  allotment_transfer : ChainSettings → SigningKey → LocalDappSession → Task

pub data Call : Type 0 where
  respond : Text → Call
  notify : Text → Call
  request_dapp_approval : DappApprovalParams → Call
  fetch_favicon : Text → Call
  proxy_rpc_request : ChainId → Text → Text → Call
  send_transaction : ChainId → SigningKey → TransactionRequest → Call
  transfer_native_token : ChainId → SigningKey → Text → NativeTokenAmount → Call
  wait_for_confirmation : ChainId → Text → Call
  sign : SigningKey → Text → Call
  approved_dapp_transaction : Text → String → Call
  dapp_transaction_result : DappTransactionResult → Call
  signed_message_for_dapp : Text → Call
  dapp_allotment_transfer_result : DappAllotmentTransferResult → Call
  spawn : Task → Call

-- A request of JSON-RPC with its id, method and parameters
pub record RawRequest : Type 0 where
  pub id : Text
  pub method : Text
  pub params : Text

pub record ProviderImpl : Type 0 where
  pub request_from_str : Text → Option RawRequest
  -- `serde_json::from_value` of the method and the parameters; the error is a message
  pub in_page_request_from_value : Text → Text → Result Text InPageRequest
  -- `InPageRequestParams::try_from`
  pub to_request_params : InPageRequest → Result Error (Text × Text)
  pub to_json : Payload → Option Text
  pub string_value : Text → Text
  pub message_to_json : ProviderMessage → Option Text
  -- `MethodResponse::response` and `MethodResponse::error`
  pub response : Text → Text → Text
  pub error_response : Text → ℤ → String → Text
  pub hex_encode : Text → Text
  pub u64_from_hex : Text → Option ℕ
  pub display_amount : NativeTokenAmount → Text
  pub symbol : ChainId → Text
  pub keccak_hex : Text → Text
  pub join_url : Text → Text → Option Text
  pub parse_message : Text → String
  pub error_code_message : ℤ → String
  -- the answers to a call after the calls before it
  pub favicon : Text → List Call → Result Error (Option Text)
  pub remote : Call → List Call → Result Error Text
  pub sign_bytes : SigningKey → Text → Result Error Text

module _ ⦃sys : System⦄ where
  pub record Page : Type 0 where
    pub world : World
    pub calls : List Call

module _ ⦃sys : System⦄ where
  abbrev pub PageApp : Type 0 → Type 0
  PageApp A = Exec Page Error A

  -- a transaction or a query of the application
  abbrev pub in_app : {A : Type 0} → App A → PageApp A
  in_app m p = let (r, w) = m p.world in (r, record p { world = w })

  abbrev pub call : Call → PageApp (Unit {0})
  call c p = (ok tt, record p { calls = c ∷ p.calls })

  -- a call with an answer
  abbrev pub ask : {A : Type 0} → Call → (List Call → Result Error A) → PageApp A
  ask c answer p = (answer p.calls, record p { calls = c ∷ p.calls })
