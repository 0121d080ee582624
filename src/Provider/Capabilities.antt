-- ===== src/Provider/Capabilities.antt =====
-- What a request of a page can reach: the remote API and the keys of the user.
use sealvault.Prelude.{
  ℕ, ◌≤◌, ◌+◌, ◌≡◌, refl, arith, Text, Bool, true, false, Option, none, some, inl, inr,
}
use sealvault.Prelude.Result.{Result-cases}
use sealvault.Ethereum.{EthImpl, Url}
use sealvault.System.{System}
use sealvault.Wallet.Sessions.{LocalDappSession}
use sealvault.Provider.{ProviderImpl, Page}
use sealvault.Provider.Accounts.{
  fetch_session_for_approved_dapp, eth_chain_id, eth_chain_id_unauthorized,
  net_version_unauthorized, web3_client_version, web3_sha3,
}
use sealvault.Provider.Dispatch.{
  dispatch, dispatch_with, unauthorized, authorized, dispatch_authorized_methods, proxy_method,
  proxied,
}
use sealvault.Provider.Frames.{
  eth_request_accounts-Quiet, wallet_add_ethereum_chain-Quiet, wallet_switch_ethereum_chain-Quiet,
  personal_sign-calls, proxy_method-calls, request_add_new_dapp-calls,
}
use sealvault.Provider.Signing.{
  eth_send_transaction, personal_sign, signed_answer, sign_message, fetch_session_key,
  approved_dapp_transaction, outcome,
}
use sealvault.Provider.Request.{InPageRequest, Method, TransactionRequest, allow_proxy, method_of}
use sealvault.Provider.Trace.{count, is_remote, is_signing}

-- The methods that use a signing key
unfoldable pub may_sign : Method → Bool
may_sign (Method.send_transaction tx) = true
may_sign (Method.personal_sign message address password) = true
may_sign _ = false

-- The requests that reach the remote API: those on the list, and the one that sends a transaction
unfoldable pub may_call : Method → InPageRequest → Bool
may_call (Method.send_transaction tx) r = true
may_call m r = allow_proxy r

abbrev pub one_if : Bool → ℕ
one_if true = 1
one_if false = 0

module _ ⦃sys : System⦄ ⦃eth : EthImpl⦄ ⦃impl : ProviderImpl⦄ where
  proxy_method-remote :
      (r : InPageRequest) (session : LocalDappSession) (p : Page)
      → count is_remote (proxy_method r session p).1.calls
        ≤ one_if (allow_proxy r) + count is_remote p.calls
  unfolding proxy_method proxied count is_remote
  proxy_method-remote r session p = ground arith

  eth_send_transaction-signing :
      (tx : TransactionRequest) (session : LocalDappSession) (p : Page)
      → count is_signing (eth_send_transaction tx session p).1.calls ≤ 1 + count is_signing p.calls
  unfolding eth_send_transaction fetch_session_key approved_dapp_transaction outcome count
      is_signing
  eth_send_transaction-signing tx session p = ground arith

  personal_sign-signing :
      (message address : Text) (password : Option Text) (session : LocalDappSession) (p : Page)
      → count is_signing (personal_sign message address password session p).1.calls
        ≤ 1 + count is_signing p.calls
  unfolding personal_sign signed_answer sign_message fetch_session_key count is_signing
  personal_sign-signing message address password session p = ground arith

  eth_send_transaction-remote :
      (tx : TransactionRequest) (session : LocalDappSession) (p : Page)
      → count is_remote (eth_send_transaction tx session p).1.calls ≤ 1 + count is_remote p.calls
  unfolding eth_send_transaction fetch_session_key approved_dapp_transaction outcome count is_remote
  eth_send_transaction-remote tx session p = ground arith

  authorized-remote :
      (m : Method) (r : InPageRequest) (session : LocalDappSession) (p : Page)
      → count is_remote (authorized m r session p).1.calls
        ≤ one_if (may_call m r) + count is_remote p.calls
  unfolding authorized eth_chain_id web3_client_version web3_sha3 may_call
  authorized-remote Method.accounts r session p =
      omega (arith, (eth_request_accounts-Quiet session p).1)
  authorized-remote Method.chain_id r session p = omega arith
  authorized-remote Method.network_id r session p = proxy_method-remote r session p
  authorized-remote (Method.send_transaction tx) r session p =
      eth_send_transaction-remote tx session p
  authorized-remote (Method.personal_sign message address password) r session p =
      omega (arith, (personal_sign-calls message address password session p).1)
  authorized-remote (Method.add_chain param) r session p =
      omega (arith, (wallet_add_ethereum_chain-Quiet param session p).1)
  authorized-remote (Method.switch_chain param) r session p =
      omega (arith, (wallet_switch_ethereum_chain-Quiet param session p).1)
  authorized-remote Method.client_version r session p = omega arith
  authorized-remote (Method.sha3 payload) r session p = omega arith
  authorized-remote Method.other r session p = proxy_method-remote r session p

  authorized-signing :
      (m : Method) (r : InPageRequest) (session : LocalDappSession) (p : Page)
      → count is_signing (authorized m r session p).1.calls
        ≤ one_if (may_sign m) + count is_signing p.calls
  unfolding authorized eth_chain_id web3_client_version web3_sha3 may_sign
  authorized-signing Method.accounts r session p =
      omega (arith, (eth_request_accounts-Quiet session p).2)
  authorized-signing Method.chain_id r session p = omega arith
  authorized-signing Method.network_id r session p =
      omega (arith, (proxy_method-calls r session p).1)
  authorized-signing (Method.send_transaction tx) r session p =
      eth_send_transaction-signing tx session p
  authorized-signing (Method.personal_sign message address password) r session p =
      personal_sign-signing message address password session p
  authorized-signing (Method.add_chain param) r session p =
      omega (arith, (wallet_add_ethereum_chain-Quiet param session p).2)
  authorized-signing (Method.switch_chain param) r session p =
      omega (arith, (wallet_switch_ethereum_chain-Quiet param session p).2)
  authorized-signing Method.client_version r session p = omega arith
  authorized-signing (Method.sha3 payload) r session p = omega arith
  authorized-signing Method.other r session p = omega (arith, (proxy_method-calls r session p).1)

  pub unauthorized-calls :
      (m : Method) (url : Url) (raw : Text) (p : Page)
      → (count is_remote (unauthorized m url raw p).1.calls ≡ count is_remote p.calls)
        × (count is_signing (unauthorized m url raw p).1.calls ≡ count is_signing p.calls)
  unfolding unauthorized eth_chain_id_unauthorized net_version_unauthorized
  unauthorized-calls Method.accounts url raw p =
      let quiet = request_add_new_dapp-calls url raw p in (ground arith, ground arith)
  unauthorized-calls Method.chain_id url raw p = (ground arith, ground arith)
  unauthorized-calls Method.network_id url raw p = (ground arith, ground arith)
  unauthorized-calls (Method.send_transaction tx) url raw p = (refl, refl)
  unauthorized-calls (Method.personal_sign message address password) url raw p = (refl, refl)
  unauthorized-calls (Method.add_chain param) url raw p = (refl, refl)
  unauthorized-calls (Method.switch_chain param) url raw p = (refl, refl)
  unauthorized-calls Method.client_version url raw p = (refl, refl)
  unauthorized-calls (Method.sha3 payload) url raw p = (refl, refl)
  unauthorized-calls Method.other url raw p = (refl, refl)

  dispatch_with-reach :
      (r : InPageRequest) (url : Url) (raw : Text) (s : Option LocalDappSession) (p : Page)
      → let q = (dispatch_with r url raw s p).1 in
        (count is_remote q.calls ≤ one_if (may_call (method_of r) r) + count is_remote p.calls)
        × (count is_signing q.calls ≤ one_if (may_sign (method_of r)) + count is_signing p.calls)
  unfolding dispatch_with dispatch_authorized_methods
  dispatch_with-reach r url raw none p =
      let quiet = unauthorized-calls (method_of r) url raw p in (omega arith, omega arith)
  dispatch_with-reach r url raw (some session) p =
      let a = authorized-remote (method_of r) r session p in
      let b = authorized-signing (method_of r) r session p in (ground arith, ground arith)

  -- A request makes at most one call of the remote API, where sending a transaction is one call, and
  -- none if it is neither on the list of proxied requests nor eth_sendTransaction. It uses a signing
  -- key at most once, and not at all if it is neither personal_sign nor eth_sendTransaction. Both
  -- hold whether or not the user approved the dapp, and however the request ends; what is left to run
  -- in the background is not counted.
  pub dispatch-reach :
      (r : InPageRequest) (url : Url) (raw : Text) (p : Page)
      → let q = (dispatch r url raw p).1 in
        (count is_remote q.calls ≤ one_if (may_call (method_of r) r) + count is_remote p.calls)
        × (count is_signing q.calls ≤ one_if (may_sign (method_of r)) + count is_signing p.calls)
  unfolding dispatch fetch_session_for_approved_dapp
  dispatch-reach r url raw p =
      let v : Page = (fetch_session_for_approved_dapp url p).1 in
      elim (Result-cases (fetch_session_for_approved_dapp url p).0) [
        | inl (e, x) ↦ (ground arith, ground arith)
        | inr (s, x) ↦ let d = dispatch_with-reach r url raw s v in (ground arith, ground arith)
      ]
