-- ===== src/Provider/Signing.antt =====
-- core/src/protocols/eth/in_page_provider/dapp_key_provider.rs: the requests that sign, and what
-- runs in the background behind them; with `Signer::personal_sign` of core/src/protocols/eth/signer.rs.
use sealvault.Prelude.{
  Text, codes, String, Option, none, some, ◌∷◌, ◌++◌, length, text_eq, if◌then◌else◌,
}
use sealvault.Prelude.Decimal
use sealvault.Prelude.Result.{Result, ok, err}
use sealvault.Prelude.Exec.{◌>>=◌, ◌>>◌, pure, raise, lift}
use sealvault.Error.{Error, message_for_ui_callback}
use sealvault.Ethereum.{EthImpl, SigningKey}
use sealvault.Ethereum.Chains.{display_name, explorer_url}
use sealvault.System.{System, transaction}
use sealvault.Wallet.Addresses.Signing.{fetch_eth_signing_key}
use sealvault.Wallet.Sessions.{LocalDappSession}
use sealvault.Provider.{
  ProviderImpl, PageApp, Call, Payload, Task, DappTransactionResult, in_app, call, ask,
}
use sealvault.Provider.Codes.{to_value, invalid_address_error}
use sealvault.Provider.Request.{TransactionRequest}

-- `Signer::personal_sign_message`
unfoldable pub personal_sign_message : Text → Text
personal_sign_message message =
    (25 ∷ codes "Ethereum Signed Message:\n") ++ (Decimal.show (length message) ++ message)

module _ ⦃sys : System⦄ ⦃eth : EthImpl⦄ where
  -- `DappKeyProvider::fetch_eth_signing_key`
  unfoldable pub fetch_session_key : LocalDappSession → PageApp SigningKey
  fetch_session_key session = in_app (transaction (fetch_eth_signing_key session.address_id))

module _ ⦃sys : System⦄ where
  unfoldable pub approved_dapp_transaction : LocalDappSession → PageApp (Unit {0})
  approved_dapp_transaction session =
      call (
        Call.approved_dapp_transaction session.dapp_human_identifier
          (display_name session.chain_id))

  -- The nonce that a page gives is dropped.
  unfoldable pub without_nonce : TransactionRequest → TransactionRequest
  without_nonce tx = record tx { nonce = none }

  module _ ⦃impl : ProviderImpl⦄ where
    -- A future that is awaited: its failure is a value.
    unfoldable pub outcome : Call → PageApp (Result Error Text)
    outcome c p = (ok (impl.remote c p.calls), record p { calls = c ∷ p.calls })

    partial_result : LocalDappSession → Option Text → Option String → DappTransactionResult
    partial_result session url message = record {
      dapp_identifier = session.dapp_human_identifier;
      chain_display_name = display_name session.chain_id;
      explorer_url = url;
      error_message = message;
    }

    transaction_done : LocalDappSession → Option Text → PageApp (Unit {0})
    unfolding partial_result
    transaction_done session none = pure tt
    transaction_done session (some url) =
        call (Call.dapp_transaction_result (partial_result session (some url) none))

    transaction_failed : LocalDappSession → Error → PageApp (Unit {0})
    unfolding partial_result
    transaction_failed session e = call (
        Call.dapp_transaction_result
          (partial_result session none (some (message_for_ui_callback e))))

    confirmed : LocalDappSession → Result Error Text → PageApp (Unit {0})
    unfolding transaction_done transaction_failed
    confirmed session (ok hash) =
        transaction_done session
          (impl.join_url (explorer_url session.chain_id) (codes "tx/" ++ hash))
    confirmed session (err e) = transaction_failed session e

    unfoldable pub dapp_transaction_result :
        LocalDappSession → Result Error Text → PageApp (Unit {0})
    unfolding confirmed outcome transaction_failed
    dapp_transaction_result session (ok hash) = do
      result ← outcome (Call.wait_for_confirmation session.chain_id hash)
      confirmed session result
    dapp_transaction_result session (err e) = transaction_failed session e

    unfoldable pub personal_sign_callback : LocalDappSession → PageApp (Unit {0})
    personal_sign_callback session =
        call (Call.signed_message_for_dapp session.dapp_human_identifier)

module _ ⦃sys : System⦄ ⦃eth : EthImpl⦄ ⦃impl : ProviderImpl⦄ where
  unfoldable pub eth_send_transaction : TransactionRequest → LocalDappSession → PageApp Text
  unfolding without_nonce outcome
  eth_send_transaction tx session = do
    key ← fetch_session_key session
    approved_dapp_transaction session
    result ← outcome (Call.send_transaction key.chain_id key (without_nonce tx))
    call (Call.spawn (Task.dapp_transaction_result session result))
    hash ← lift result
    lift (to_value (Payload.text hash))

  -- `Signer::personal_sign`
  unfoldable pub sign_message : SigningKey → Text → PageApp Text
  sign_message key message =
      ask (Call.sign key (personal_sign_message message))
        (λ calls. impl.sign_bytes key (personal_sign_message message))

  unfoldable pub signed_answer : Text → LocalDappSession → PageApp Text
  unfolding sign_message
  signed_answer message session = do
    key ← fetch_session_key session
    signature ← sign_message key message
    json ← lift (to_value (Payload.text signature))
    call (Call.spawn (Task.personal_sign_callback session))
    pure json

  unfoldable pub personal_sign : Text → Text → Option Text → LocalDappSession → PageApp Text
  unfolding signed_answer
  personal_sign message address password session =
      if text_eq session.address address
      then signed_answer message session
      else raise invalid_address_error
