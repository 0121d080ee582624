-- ===== src/Provider/Frames.antt =====
-- What the operations of the provider call: each keeps the calls of the kinds that are not its own.
use sealvault.Prelude.{◌≡◌, arith, Text, Option, ℕ, suc}
use sealvault.Error.{Error}
use sealvault.Prelude.Result.{Result, ok, err}
use sealvault.Ethereum.{EthImpl, Url}
use sealvault.Ethereum.Chains.{ChainId}
use sealvault.System.{System}
use sealvault.Wallet.Sessions.{LocalDappSession}
use sealvault.Provider.{ProviderImpl, Page}
use sealvault.Provider.Accounts.{
  eth_request_accounts, notify_connect, notify, change_chain, notify_chain_changed,
  wallet_add_ethereum_chain, wallet_switch_ethereum_chain,
}
use sealvault.Provider.Approval.{request_add_new_dapp, approval_data}
use sealvault.Provider.Dispatch.{proxied, proxy_method}
use sealvault.Provider.Request.{
  InPageRequest, TransactionRequest, AddEthereumChainParameter, SwitchEthereumChainParameter,
}
use sealvault.Provider.Signing.{
  eth_send_transaction, personal_sign, signed_answer, sign_message, fetch_session_key,
  approved_dapp_transaction, outcome,
}
use sealvault.Provider.Trace.{count, is_answer, is_remote, is_signing}

-- One more, if the result is no error
abbrev pub one_more_if_ok : {A : Type 0} → Result Error A → ℕ → ℕ
one_more_if_ok (ok a) n = suc n
one_more_if_ok (err e) n = n

module _ ⦃sys : System⦄ ⦃eth : EthImpl⦄ ⦃impl : ProviderImpl⦄ where
  -- As many calls of each of the three kinds
  abbrev pub Quiet : Page → Page → Type 0
  Quiet p q =
      (count is_answer q.calls ≡ count is_answer p.calls)
      × (count is_remote q.calls ≡ count is_remote p.calls)
      × (count is_signing q.calls ≡ count is_signing p.calls)

  pub eth_request_accounts-Quiet :
      (session : LocalDappSession) (p : Page) → Quiet p (eth_request_accounts session p).1
  unfolding eth_request_accounts notify_connect notify count is_answer is_remote is_signing
  eth_request_accounts-Quiet session p = (ground arith, ground arith, ground arith)

  change_chain-Quiet :
      (session : LocalDappSession) (c : ChainId) (p : Page) → Quiet p (change_chain session c p).1
  unfolding change_chain notify_chain_changed notify count is_answer is_remote is_signing
  change_chain-Quiet session c p = (ground arith, ground arith, ground arith)

  pub wallet_add_ethereum_chain-Quiet :
      (param : AddEthereumChainParameter) (session : LocalDappSession) (p : Page)
      → Quiet p (wallet_add_ethereum_chain param session p).1
  unfolding wallet_add_ethereum_chain change_chain notify_chain_changed notify count is_answer
      is_remote is_signing
  wallet_add_ethereum_chain-Quiet param session p = (ground arith, ground arith, ground arith)

  pub wallet_switch_ethereum_chain-Quiet :
      (param : SwitchEthereumChainParameter) (session : LocalDappSession) (p : Page)
      → Quiet p (wallet_switch_ethereum_chain param session p).1
  unfolding wallet_switch_ethereum_chain change_chain notify_chain_changed notify count is_answer
      is_remote is_signing
  wallet_switch_ethereum_chain-Quiet param session p = (ground arith, ground arith, ground arith)

  pub eth_send_transaction-answers :
      (tx : TransactionRequest) (session : LocalDappSession) (p : Page)
      → count is_answer (eth_send_transaction tx session p).1.calls ≡ count is_answer p.calls
  unfolding eth_send_transaction fetch_session_key approved_dapp_transaction outcome count is_answer
  eth_send_transaction-answers tx session p = ground arith

  -- Signing a message answers nothing itself and calls no remote API.
  pub personal_sign-calls :
      (message address : Text) (password : Option Text) (session : LocalDappSession) (p : Page)
      → let q = (personal_sign message address password session p).1 in
        (count is_answer q.calls ≡ count is_answer p.calls)
        × (count is_remote q.calls ≡ count is_remote p.calls)
  unfolding personal_sign signed_answer sign_message fetch_session_key count is_answer is_remote
  personal_sign-calls message address password session p = (ground arith, ground arith)

  pub proxy_method-calls :
      (r : InPageRequest) (session : LocalDappSession) (p : Page)
      → (count is_answer (proxy_method r session p).1.calls ≡ count is_answer p.calls)
        × (count is_signing (proxy_method r session p).1.calls ≡ count is_signing p.calls)
  unfolding proxy_method proxied count is_answer is_signing
  proxy_method-calls r session p = (ground arith, ground arith)

  -- The user is asked once, or the request fails before.
  pub request_add_new_dapp-calls :
      (url : Url) (raw : Text) (p : Page)
      → let (r, q) = request_add_new_dapp url raw p in
        (count is_answer q.calls ≡ one_more_if_ok r (count is_answer p.calls))
        × (count is_remote q.calls ≡ count is_remote p.calls)
        × (count is_signing q.calls ≡ count is_signing p.calls)
  unfolding request_add_new_dapp approval_data count is_answer is_remote is_signing
  request_add_new_dapp-calls url raw p = (ground arith, ground arith, ground arith)
