-- ===== src/Provider/Approval.antt =====
-- core/src/protocols/eth/in_page_provider/dapp_key_provider.rs: a dapp that is not known is shown to
-- the user, who approves or rejects it; an approved dapp gets a key, a session and an allotment.
use sealvault.Prelude.{Text, Bool, not, String, Option, none, some, ◌==◌, if◌then◌else◌}
use sealvault.Prelude.Result.{Result, ok, err}
use sealvault.Prelude.Exec.{◌>>=◌, ◌>>◌, pure, lift}
use sealvault.Error.{Error, CoreError, to_core_error}
use sealvault.Ethereum.{EthImpl, Url, SigningKey}
use sealvault.Ethereum.Chains.{
  ChainId, ChainSettings, default_dapp_chain, display_name, to_u64, try_from_u64,
}
use sealvault.Db.Settings.{fetch_active_profile_id}
use sealvault.System.{System, App, query, transaction}
use sealvault.Wallet.Ids.{parse_id}
use sealvault.Wallet.Chains.{fetch_user_settings_for_eth_chain}
use sealvault.Wallet.Dapps.{create_if_not_exists, dapp_identifier}
use sealvault.Wallet.Addresses.Signing.{
  create_eth_key_and_address, fetch_eth_wallet_id, fetch_eth_signing_key,
}
use sealvault.Wallet.Sessions.{LocalDappSession, create_eth_session}
use sealvault.Provider.{ProviderImpl, PageApp, Call, Task, DappApprovalParams, in_app, call, ask}
use sealvault.Provider.Accounts.{eth_request_accounts}
use sealvault.Provider.Signing.{outcome}
use sealvault.Provider.Codes.{InPageErrorCode, parse_request, to_i32}

module _ ⦃sys : System⦄ ⦃eth : EthImpl⦄ where
  -- the callback of the transaction of `request_add_new_dapp`
  unfoldable pub approval_data : App (Text × ChainSettings)
  approval_data = do
    profile_id ← query fetch_active_profile_id
    settings ← fetch_user_settings_for_eth_chain default_dapp_chain
    pure (profile_id, settings)

  -- the callback of the transaction of `add_new_dapp`
  unfoldable pub add_dapp_in_tx : Url → Text → ChainId → App LocalDappSession
  add_dapp_in_tx url profile_id c = do
    dapp_id ← create_if_not_exists url
    create_eth_key_and_address (record {
      profile_id = profile_id;
      chain_id = c;
      dapp_id = some dapp_id;
      is_profile_wallet = Bool.false;
    })
    create_eth_session (record { dapp_id = dapp_id; profile_id = profile_id; chain_id = c })

  -- the callback of the transaction of `transfer_default_dapp_allotment`
  unfoldable pub allotment_in_tx : LocalDappSession → App (ChainSettings × SigningKey)
  allotment_in_tx session = do
    wallet_id ← fetch_eth_wallet_id session.profile_id session.chain_id
    settings ← fetch_user_settings_for_eth_chain session.chain_id
    key ← fetch_eth_signing_key wallet_id
    pure (settings, key)

module _ ⦃sys : System⦄ ⦃eth : EthImpl⦄ ⦃impl : ProviderImpl⦄ where
  -- `respond_to_request`: the result is passed to the page as hexadecimal text
  unfoldable pub respond_to_request : Text → PageApp (Unit {0})
  respond_to_request result = call (Call.respond (impl.hex_encode result))

  unfoldable pub request_add_new_dapp : Url → Text → PageApp (Unit {0})
  request_add_new_dapp url raw = do
    (profile_id, settings) ← in_app (transaction approval_data)
    favicon ← ask (Call.fetch_favicon url.as_str) (impl.favicon url.as_str)
    identifier ← lift (dapp_identifier url)
    call (
        Call.request_dapp_approval (record {
          profile_id = profile_id;
          dapp_identifier = identifier;
          favicon = favicon;
          amount = impl.display_amount settings.default_dapp_allotment;
          transfer_allotment = not (settings.default_dapp_allotment.amount == 0);
          token_symbol = impl.symbol default_dapp_chain;
          chain_display_name = display_name default_dapp_chain;
          chain_id = to_u64 default_dapp_chain;
          json_rpc_request = raw;
        }))

  unfoldable pub transfer_default_dapp_allotment : LocalDappSession → PageApp (Unit {0})
  unfolding allotment_in_tx
  transfer_default_dapp_allotment session = do
    (settings, key) ← in_app (transaction (allotment_in_tx session))
    call (Call.spawn (Task.allotment_transfer settings key session))

  unfoldable pub add_new_dapp : Url → DappApprovalParams → PageApp LocalDappSession
  unfolding add_dapp_in_tx
  add_new_dapp url approval = do
    c ← lift (try_from_u64 approval.chain_id)
    profile_id ← lift (parse_id approval.profile_id)
    session ← in_app (transaction (add_dapp_in_tx url profile_id c))
    if approval.transfer_allotment then transfer_default_dapp_allotment session else pure tt
    pure session

  unfoldable pub handle_user_approved_dapp : Url → DappApprovalParams → PageApp (Unit {0})
  handle_user_approved_dapp url approval = do
    request ← lift (parse_request approval.json_rpc_request)
    session ← add_new_dapp url approval
    accounts ← eth_request_accounts session
    respond_to_request (impl.response request.id accounts)

  unfoldable pub handle_user_rejected_dapp : DappApprovalParams → PageApp (Unit {0})
  handle_user_rejected_dapp approval = do
    request ← lift (parse_request approval.json_rpc_request)
    respond_to_request (
        impl.error_response request.id (to_i32 InPageErrorCode.user_rejected)
          (impl.error_code_message (to_i32 InPageErrorCode.user_rejected)))

  -- What the user sees of a transfer that failed
  unfoldable pub allotment_message : CoreError → String
  allotment_message (CoreError.user explanation) = explanation
  allotment_message (CoreError.retriable e) = "An unexpected error occurred"
  allotment_message (CoreError.fatal e) = "An unexpected error occurred"

  transfer_message : Result Error Text → Option String
  unfolding allotment_message
  transfer_message (ok hash) = none
  transfer_message (err e) = some (allotment_message (to_core_error e))

  -- the transfer, and after it the confirmation
  confirm_transfer : ChainId → Result Error Text → PageApp (Result Error Text)
  unfolding outcome
  confirm_transfer c (err e) = pure (err e)
  confirm_transfer c (ok hash) = outcome (Call.wait_for_confirmation c hash)

  unfoldable pub make_default_dapp_allotment_transfer :
      ChainSettings → SigningKey → LocalDappSession → PageApp (Unit {0})
  unfolding outcome confirm_transfer transfer_message
  make_default_dapp_allotment_transfer settings key session = do
    let amount = settings.default_dapp_allotment
    sent ← outcome (Call.transfer_native_token key.chain_id key session.address amount)
    result ← confirm_transfer key.chain_id sent
    call (
        Call.dapp_allotment_transfer_result (record {
          dapp_identifier = session.dapp_human_identifier;
          amount = impl.display_amount amount;
          token_symbol = impl.symbol amount.chain_id;
          chain_display_name = display_name amount.chain_id;
          error_message = transfer_message result;
        }))
