-- ===== src/Provider/Dispatch.antt =====
-- core/src/protocols/eth/in_page_provider/dapp_key_provider.rs: a request from its text to its
-- response. A page whose dapp the user has not approved reaches three methods only.
use sealvault.Prelude.{Text, Option, none, some, codes, if◌then◌else◌}
use sealvault.Prelude.Result.{Result, ok, err}
use sealvault.Prelude.Exec.{◌>>=◌, ◌>>◌, pure, raise, lift}
use sealvault.Error.{Error, contains}
use sealvault.Ethereum.{EthImpl, Url}
use sealvault.System.{System}
use sealvault.Wallet.Sessions.{LocalDappSession}
use sealvault.Provider.{ProviderImpl, PageApp, Call, RawRequest, Task, ask}
use sealvault.Provider.Accounts.{
  fetch_session_for_approved_dapp, eth_chain_id, eth_chain_id_unauthorized,
  net_version_unauthorized, eth_request_accounts, wallet_add_ethereum_chain,
  wallet_switch_ethereum_chain, web3_client_version, web3_sha3,
}
use sealvault.Provider.Approval.{
  respond_to_request, request_add_new_dapp, make_default_dapp_allotment_transfer,
}
use sealvault.Provider.Codes.{
  InPageErrorCode, to_i32, parse_request, code_error, unsupported_method_error,
}
use sealvault.Provider.Request.{InPageRequest, Method, allow_proxy, method_of}
use sealvault.Provider.Signing.{
  eth_send_transaction, personal_sign, dapp_transaction_result, personal_sign_callback,
}

module _ ⦃sys : System⦄ ⦃eth : EthImpl⦄ ⦃impl : ProviderImpl⦄ where
  -- the call of the remote API, on the chain of the session
  unfoldable pub proxied : InPageRequest → LocalDappSession → PageApp Text
  proxied request session = do
    (method, params) ← lift (impl.to_request_params request)
    ask (Call.proxy_rpc_request session.chain_id method params)
        (impl.remote (Call.proxy_rpc_request session.chain_id method params))

  unfoldable pub proxy_method : InPageRequest → LocalDappSession → PageApp Text
  proxy_method request session =
      if allow_proxy request then proxied request session else raise unsupported_method_error

  -- `dispatch_authorized_methods`; the request itself is needed where it is passed on.
  unfoldable pub authorized : Method → InPageRequest → LocalDappSession → PageApp Text
  authorized Method.accounts r session = eth_request_accounts session
  authorized Method.chain_id r session = eth_chain_id session
  authorized (Method.send_transaction tx) r session = eth_send_transaction tx session
  authorized (Method.personal_sign message address password) r session =
      personal_sign message address password session
  authorized (Method.add_chain param) r session = wallet_add_ethereum_chain param session
  authorized (Method.switch_chain param) r session = wallet_switch_ethereum_chain param session
  authorized Method.client_version r session = web3_client_version
  authorized (Method.sha3 payload) r session = web3_sha3 payload
  authorized Method.network_id r session = proxy_method r session
  authorized Method.other r session = proxy_method r session

  unfoldable pub dispatch_authorized_methods : InPageRequest → LocalDappSession → PageApp Text
  dispatch_authorized_methods request session = authorized (method_of request) request session

  answer : PageApp Text → PageApp (Option Text)
  answer m = do result ← m; pure (some result)

  -- The arms of `dispatch` without a session
  unfoldable pub unauthorized : Method → Url → Text → PageApp (Option Text)
  unfolding answer
  unauthorized Method.accounts url raw = do request_add_new_dapp url raw; pure none
  unauthorized Method.chain_id url raw = answer eth_chain_id_unauthorized
  unauthorized Method.network_id url raw = answer net_version_unauthorized
  unauthorized m url raw = raise (code_error InPageErrorCode.unauthorized)

  unfoldable pub dispatch_with :
      InPageRequest → Url → Text → Option LocalDappSession → PageApp (Option Text)
  unfolding answer
  dispatch_with request url raw none = unauthorized (method_of request) url raw
  dispatch_with request url raw (some session) =
      answer (dispatch_authorized_methods request session)

  unfoldable pub dispatch : InPageRequest → Url → Text → PageApp (Option Text)
  dispatch request url raw = do
    session ← fetch_session_for_approved_dapp url
    dispatch_with request url raw session

  -- An error of JSON-RPC is a response, and any other error is returned.
  unfoldable pub response_to : Text → Result Error (Option Text) → PageApp (Option Text)
  response_to id (ok none) = pure none
  response_to id (ok (some result)) = pure (some (impl.response id result))
  response_to id (err (Error.json_rpc code message)) =
      pure (some (impl.error_response id code message))
  response_to id (err (Error.retriable e)) = raise (Error.retriable e)
  response_to id (err (Error.fatal e)) = raise (Error.fatal e)
  response_to id (err (Error.user e)) = raise (Error.user e)

  unfoldable pub respond_with : Text → PageApp (Option Text) → PageApp (Option Text)
  respond_with id m p = let (result, q) = m p in response_to id result q

  -- The code of a request that is none of the known ones
  unfoldable pub deserialize_code : Text → InPageErrorCode
  deserialize_code message =
      if contains (codes "unknown variant") message
      then InPageErrorCode.method_not_found
      else InPageErrorCode.invalid_params

  unfoldable pub handle_call :
      Url → Text → RawRequest → Result Text InPageRequest → PageApp (Option Text)
  unfolding deserialize_code
  handle_call url raw request (ok r) = respond_with request.id (dispatch r url raw)
  handle_call url raw request (err message) = pure (
      some (
        impl.error_response request.id (to_i32 (deserialize_code message))
          (impl.parse_message message)))

  unfoldable pub raw_json_rpc_request : Url → Text → PageApp (Option Text)
  raw_json_rpc_request url raw = do
    request ← lift (parse_request raw)
    handle_call url raw request (impl.in_page_request_from_value request.method request.params)

  unfoldable pub respond_if_some : Option Text → PageApp (Unit {0})
  respond_if_some none = pure tt
  respond_if_some (some response) = respond_to_request response

  unfoldable pub in_page_request_async : Url → Text → PageApp (Unit {0})
  unfolding respond_if_some
  in_page_request_async url raw = do
    response ← raw_json_rpc_request url raw
    respond_if_some response

  -- What a task in the background does
  unfoldable pub run_task : Task → PageApp (Unit {0})
  run_task (Task.dapp_transaction_result session result) = dapp_transaction_result session result
  run_task (Task.personal_sign_callback session) = personal_sign_callback session
  run_task (Task.allotment_transfer settings key session) =
      make_default_dapp_allotment_transfer settings key session
