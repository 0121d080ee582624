-- ===== src/Provider/Signed.antt =====
-- What is signed for a page, and with which key.
use sealvault.Prelude.{
  ◌≡◌, ◌≢◌, refl, arith, Text, codes, Option, none, some, List, ◌∷◌, ◌++◌, ◌⊎◌, inl, inr, length,
  text_eq, text_eq→≡, text_eq_refl, Bool-cases, Option-cases,
}
use sealvault.Prelude.Decimal
use sealvault.Prelude.Int.{negsuc}
use sealvault.Prelude.Result.{Result, ok, err, Result-cases}
use sealvault.Error.{Error}
use sealvault.Ethereum.{EthImpl, SigningKey}
use sealvault.Ethereum.Chains.{display_name}
use sealvault.System.{System}
use sealvault.Wallet.Sessions.{LocalDappSession}
use sealvault.Provider.{ProviderImpl, Page, Call, Task, Payload}
use sealvault.Provider.Codes.{to_i32, to_value}
use sealvault.Provider.Request.{TransactionRequest}
use sealvault.Provider.Signing.{
  eth_send_transaction, personal_sign, signed_answer, sign_message, fetch_session_key,
  approved_dapp_transaction, outcome, without_nonce, personal_sign_message,
}

-- The message of EIP-191 that is signed for a text: the byte 0x19, a fixed line, the decimal length
-- and the text
abbrev pub prefixed : Text → Text
prefixed message =
    25 ∷ (codes "Ethereum Signed Message:\n" ++ (Decimal.show (length message) ++ message))

module _ ⦃sys : System⦄ ⦃eth : EthImpl⦄ ⦃impl : ProviderImpl⦄ where
  -- What follows when the key of the session is there: one use of it. A signature that fails is the
  -- error of the request; else its JSON is the answer, after which the notice to the user is started.
  abbrev pub SignedWith :
      Text → LocalDappSession → SigningKey → Page → Result Error Text → List Call → Type 0
  SignedWith message session key p result calls =
      let signing = Call.sign key (prefixed message) ∷ p.calls in
      let notice = Call.spawn (Task.personal_sign_callback session) in
      ((e : Error) × (result ≡ err e) × (calls ≡ signing))
      ⊎ ((signature : Text) × (json : Text) × (impl.sign_bytes key (prefixed message)
            ≡ ok signature)
          × (impl.to_json (Payload.text signature) ≡ some json)
          × (result ≡ ok json)
          × (calls ≡ notice ∷ signing))

  -- What a request to sign leads to: another address than the one of the session is refused with
  -- -32602, and a session without a key fails, both with nothing called; else the message is signed.
  abbrev pub SignedOnce :
      Text → Text → LocalDappSession → Page → Result Error Text → List Call → Type 0
  SignedOnce message address session p result calls =
      let key_found = (fetch_session_key session p).0 in
      ((session.address ≢ address)
        × (result ≡ err (Error.json_rpc (negsuc 32601) "Invalid address"))
        × (calls ≡ p.calls))
      ⊎ ((session.address ≡ address)
          × (((e : Error) × (key_found ≡ err e) × (result ≡ err e) × (calls ≡ p.calls))
              ⊎ ((key : SigningKey) × (key_found ≡ ok key)
                  × SignedWith message session key p result calls)))

  signed_answer-SignedOnce :
      (message address : Text) (session : LocalDappSession) (p : Page)
      → session.address ≡ address
      → let (result, q) = signed_answer message session p in
        SignedOnce message address session p result q.calls
  unfolding signed_answer sign_message fetch_session_key personal_sign_message to_value
  signed_answer-SignedOnce message address session p same =
      let unserialized = Error.fatal "Failed to serialize json value" in
      elim (Result-cases (fetch_session_key session p).0) [
        | inl (e, x) ↦ inr (same, inl (e, x, ground arith, ground arith))
        | inr (key, x) ↦ elim (Result-cases (impl.sign_bytes key (prefixed message))) [
          | inl (e, y) ↦ inr (same, inr (key, x, inl (e, ground arith, ground arith)))
          | inr (signature, y) ↦ elim (Option-cases (impl.to_json (Payload.text signature))) [
            | inl z ↦ inr (same, inr (key, x, inl (unserialized, ground arith, ground arith)))
            | inr (json, z) ↦
                inr (same, inr (key, x, inr (signature, json, y, z, ground arith, ground arith)))
          ]
        ]
      ]

  -- A request to sign a message for another address than the one of the session is refused, and
  -- nothing is called. Else there is one signature, with the key of the session if it can be read,
  -- over the byte 0x19, the line "Ethereum Signed Message:", the length and the message. If no error
  -- follows, the JSON of the signature is the answer and the notice to the user is started.
  pub personal_sign-signed :
      (message address : Text) (password : Option Text) (session : LocalDappSession) (p : Page)
      → let (result, q) = personal_sign message address password session p in
        SignedOnce message address session p result q.calls
  unfolding personal_sign to_i32
  personal_sign-signed message address password session p =
      elim (Bool-cases (text_eq session.address address)) [
        | inl same ↦
            let made =
              signed_answer-SignedOnce message address session p
                (text_eq→≡ session.address address same) in
            rw (same, personal_sign) made
        | inr other ↦
            let differs : session.address ≢ address =
              λ e. absurd (cc (other, text_eq_refl session.address, e)) in
            inl (differs, ground arith, ground arith)
      ]

  -- What a request to send a transaction leads to: a session without a key fails with nothing called;
  -- else the user is shown the transaction, it is sent once on the chain of the key and without the
  -- nonce of the page, and the task that follows its result is started, also if sending failed. The
  -- JSON of the hash is the answer. The latest call is the first of the list.
  abbrev pub SentOnce :
      TransactionRequest → LocalDappSession → Page → Result Error Text → List Call → Type 0
  SentOnce tx session p result calls =
      let key_found = (fetch_session_key session p).0 in
      let shown =
        Call.approved_dapp_transaction session.dapp_human_identifier
          (display_name session.chain_id) in
      let send = λ (key : SigningKey).
        Call.send_transaction key.chain_id key (record { nonce = none; fields = tx.fields }) in
      ((e : Error) × (key_found ≡ err e) × (result ≡ err e) × (calls ≡ p.calls))
      ⊎ ((key : SigningKey) × (sent : Result Error Text) × (key_found ≡ ok key)
          × (sent ≡ impl.remote (send key) (shown ∷ p.calls))
          × (calls
              ≡ Call.spawn (Task.dapp_transaction_result session sent)
                ∷ (send key ∷ (shown ∷ p.calls)))
          × (((e : Error) × (sent ≡ err e) × (result ≡ err e))
              ⊎ ((hash : Text) × (sent ≡ ok hash) × (result ≡ to_value (Payload.text hash)))))

  -- A request to send a transaction fails with nothing called if the key of the session cannot be
  -- read. Else the user is shown the transaction first, it is then sent once, on the chain of the
  -- session's key and with that key and without the nonce that the page gave, and its result is
  -- followed in the background, also if sending failed. The answer is the JSON of the hash, or the
  -- error of sending.
  pub eth_send_transaction-sent :
      (tx : TransactionRequest) (session : LocalDappSession) (p : Page)
      → let (result, q) = eth_send_transaction tx session p in SentOnce tx session p result q.calls
  unfolding eth_send_transaction fetch_session_key approved_dapp_transaction outcome without_nonce
  eth_send_transaction-sent tx session p = elim (Result-cases (fetch_session_key session p).0) [
    | inl (e, x) ↦ inl (e, x, ground arith, ground arith)
    | inr (key, x) ↦
        let v : Page = (fetch_session_key session p).1 in
        let c : Call =
          Call.send_transaction key.chain_id key (record { nonce = none; fields = tx.fields }) in
        let shown : Page = (approved_dapp_transaction session v).1 in
        elim (Result-cases (impl.remote c shown.calls)) [
          | inl (e, y) ↦
              inr (key, err e, x, ground arith, ground arith, inl (e, refl, ground arith))
          | inr (hash, y) ↦
              inr (key, ok hash, x, ground arith, ground arith, inr (hash, refl, ground arith))
        ]
  ]
