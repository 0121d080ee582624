-- ===== src/Provider/Answers.antt =====
-- Every request of a page that is handled without an error is answered once, and no other is.
use sealvault.Prelude.{◌≡◌, refl, arith, ℕ, suc, Text, Option, none, some, inl, inr}
use sealvault.Prelude.Result.{Result, ok, err, Result-cases}
use sealvault.Error.{Error}
use sealvault.Ethereum.{EthImpl, Url}
use sealvault.System.{System}
use sealvault.Wallet.Sessions.{LocalDappSession}
use sealvault.Provider.{ProviderImpl, Page, RawRequest}
use sealvault.Provider.Accounts.{
  fetch_session_for_approved_dapp, eth_chain_id, eth_chain_id_unauthorized,
  net_version_unauthorized, web3_client_version, web3_sha3,
}
use sealvault.Provider.Approval.{respond_to_request}
use sealvault.Provider.Codes.{parse_request}
use sealvault.Provider.Dispatch.{
  dispatch, dispatch_with, unauthorized, authorized, dispatch_authorized_methods, response_to,
  respond_with, handle_call, raw_json_rpc_request, in_page_request_async, respond_if_some,
}
use sealvault.Provider.Frames.{
  eth_request_accounts-Quiet, wallet_add_ethereum_chain-Quiet, wallet_switch_ethereum_chain-Quiet,
  eth_send_transaction-answers, personal_sign-calls, proxy_method-calls, request_add_new_dapp-calls,
  one_more_if_ok,
}
use sealvault.Provider.Request.{InPageRequest, Method, method_of}
use sealvault.Provider.Trace.{count, is_answer}

module _ ⦃sys : System⦄ ⦃eth : EthImpl⦄ ⦃impl : ProviderImpl⦄ where
  authorized-answers :
      (m : Method) (r : InPageRequest) (session : LocalDappSession) (p : Page)
      → count is_answer (authorized m r session p).1.calls ≡ count is_answer p.calls
  unfolding authorized eth_chain_id web3_client_version web3_sha3
  authorized-answers Method.accounts r session p = (eth_request_accounts-Quiet session p).0
  authorized-answers Method.chain_id r session p = refl
  authorized-answers Method.network_id r session p = (proxy_method-calls r session p).0
  authorized-answers (Method.send_transaction tx) r session p =
      (eth_send_transaction-answers tx session p)
  authorized-answers (Method.personal_sign message address password) r session p =
      (personal_sign-calls message address password session p).0
  authorized-answers (Method.add_chain param) r session p =
      (wallet_add_ethereum_chain-Quiet param session p).0
  authorized-answers (Method.switch_chain param) r session p =
      (wallet_switch_ethereum_chain-Quiet param session p).0
  authorized-answers Method.client_version r session p = refl
  authorized-answers (Method.sha3 payload) r session p = refl
  authorized-answers Method.other r session p = (proxy_method-calls r session p).0

  -- A dispatch without a result has asked the user, and no other dispatch has answered.
  abbrev asked : Result Error (Option Text) → ℕ → ℕ
  asked (ok none) n = suc n
  asked (ok (some t)) n = n
  asked (err e) n = n

  unauthorized-answers :
      (m : Method) (url : Url) (raw : Text) (p : Page)
      → let (r, q) = unauthorized m url raw p in
        count is_answer q.calls ≡ asked r (count is_answer p.calls)
  unfolding unauthorized eth_chain_id_unauthorized net_version_unauthorized
  unauthorized-answers Method.accounts url raw p =
      ground (arith, request_add_new_dapp-calls url raw p)
  unauthorized-answers Method.chain_id url raw p = ground arith
  unauthorized-answers Method.network_id url raw p = ground arith
  unauthorized-answers (Method.send_transaction tx) url raw p = refl
  unauthorized-answers (Method.personal_sign message address password) url raw p = refl
  unauthorized-answers (Method.add_chain param) url raw p = refl
  unauthorized-answers (Method.switch_chain param) url raw p = refl
  unauthorized-answers Method.client_version url raw p = refl
  unauthorized-answers (Method.sha3 payload) url raw p = refl
  unauthorized-answers Method.other url raw p = refl

  dispatch_with-answers :
      (r : InPageRequest) (url : Url) (raw : Text) (s : Option LocalDappSession) (p : Page)
      → let (x, q) = dispatch_with r url raw s p in
        count is_answer q.calls ≡ asked x (count is_answer p.calls)
  unfolding dispatch_with dispatch_authorized_methods
  dispatch_with-answers r url raw none p = unauthorized-answers (method_of r) url raw p
  dispatch_with-answers r url raw (some session) p =
      let quiet = authorized-answers (method_of r) r session p in ground arith

  dispatch-answers :
      (r : InPageRequest) (url : Url) (raw : Text) (p : Page)
      → let (x, q) = dispatch r url raw p in
        count is_answer q.calls ≡ asked x (count is_answer p.calls)
  unfolding dispatch fetch_session_for_approved_dapp
  dispatch-answers r url raw p =
      let v : Page = (fetch_session_for_approved_dapp url p).1 in
      elim (Result-cases (fetch_session_for_approved_dapp url p).0) [
        | inl (e, x) ↦ ground arith
        | inr (s, x) ↦ ground (arith, dispatch_with-answers r url raw s v)
      ]

  handle_call-answers :
      (url : Url) (raw : Text) (request : RawRequest) (c : Result Text InPageRequest) (p : Page)
      → let (x, q) = handle_call url raw request c p in
        count is_answer q.calls ≡ asked x (count is_answer p.calls)
  unfolding handle_call respond_with response_to
  handle_call-answers url raw request (err message) p = refl
  handle_call-answers url raw request (ok r) p =
      let d = dispatch-answers r url raw p in ground arith

  -- A request that is handled without an error gets one answer, a response or a request to the user
  -- for an approval, and a request that ends in an error gets none.
  pub in_page_request_async-answers :
      (url : Url) (raw : Text) (p : Page)
      → let (r, q) = in_page_request_async url raw p in
        count is_answer q.calls ≡ one_more_if_ok r (count is_answer p.calls)
  unfolding in_page_request_async raw_json_rpc_request respond_if_some respond_to_request count
      is_answer
  in_page_request_async-answers url raw p = elim (Result-cases (parse_request raw)) [
    | inl (e, x) ↦ ground arith
    | inr (request, x) ↦
        let c : Result Text InPageRequest =
          impl.in_page_request_from_value request.method request.params in
        let d = handle_call-answers url raw request c p in ground arith
  ]
