-- ===== src/Provider/Unapproved.antt =====
-- A page whose dapp the user has not approved in the active profile.
use sealvault.Prelude.{
  ◌≡◌, refl, arith, Text, String, Bool, true, false, none, some, ◌∷◌, inl, inr, ap, ◌∙◌,
}
use sealvault.Prelude.Int.{pos}
use sealvault.Error.{Error}
use sealvault.Prelude.Result.{Result, ok, err, Result-cases}
use sealvault.Ethereum.{EthImpl, Url}
use sealvault.System.{System, World, transaction}
use sealvault.System.Laws.{transaction_of_ok, db-transaction_of_same}
use sealvault.Wallet.Chains.{fetch_user_settings_for_eth_chain}
use sealvault.Wallet.Dapps.{fetch_id_for_profile}
use sealvault.Provider.{ProviderImpl, Page, Call, RawRequest}
use sealvault.Provider.Accounts.{
  fetch_session_for_approved_dapp, session_in_tx, session_of_dapp, eth_chain_id_unauthorized,
  net_version_unauthorized,
}
use sealvault.Provider.Approval.{request_add_new_dapp, approval_data, respond_to_request}
use sealvault.Provider.Capabilities.{unauthorized-calls}
use sealvault.Provider.Codes.{code_error, to_i32, parse_request}
use sealvault.Provider.Dispatch.{
  dispatch, dispatch_with, unauthorized, response_to, respond_with, handle_call,
  raw_json_rpc_request, in_page_request_async, respond_if_some,
}
use sealvault.Provider.Request.{InPageRequest, Method, method_of}
use sealvault.Provider.Trace.{count, is_remote, is_signing}

-- The methods that answer a page that is not approved
unfoldable pub is_open : Method → Bool
is_open Method.accounts = true
is_open Method.chain_id = true
is_open Method.network_id = true
is_open _ = false

module _ ⦃sys : System⦄ ⦃eth : EthImpl⦄ where
  -- A search for the session of a dapp that is not added writes nothing.
  session_in_tx-db :
      (url : Url) (w : World) → (session_in_tx url w).0 ≡ ok none → (session_in_tx url w).1 ≡ w
  unfolding session_in_tx session_of_dapp fetch_id_for_profile
  session_in_tx-db url w h = ground arith

  fetch_session_for_approved_dapp-db :
      (url : Url) (p : Page)
      → (fetch_session_for_approved_dapp url p).0 ≡ ok none
      → (fetch_session_for_approved_dapp url p).1.world.db ≡ p.world.db
  unfolding fetch_session_for_approved_dapp
  fetch_session_for_approved_dapp-db url p h =
      let w : World = p.world in
      let w' : World = (transaction (session_in_tx url) w).1 in
      let start : World = record w { os = (sys.os.connect w.os).1 } in
      let t = transaction_of_ok (session_in_tx url) w w' none (λ i. (h i, w')) in
      t.1 ∙ ap (λ (v : World). v.db) (session_in_tx-db url start t.0)

  approval_data-same : (w : World) → (approval_data w).1 ≡ w
  unfolding approval_data fetch_user_settings_for_eth_chain
  approval_data-same w = ground arith

module _ ⦃sys : System⦄ ⦃eth : EthImpl⦄ ⦃impl : ProviderImpl⦄ where
  request_add_new_dapp-db :
      (url : Url) (raw : Text) (p : Page) → (request_add_new_dapp url raw p).1.world.db ≡ p.world.db
  unfolding request_add_new_dapp
  request_add_new_dapp-db url raw p =
      let w : World = p.world in
      let start : World = record w { os = (sys.os.connect w.os).1 } in
      let same =
        db-transaction_of_same approval_data w
          (ap (λ (v : World). v.db) (approval_data-same start)) in
      ground arith

  unauthorized-db :
      (m : Method) (url : Url) (raw : Text) (p : Page)
      → (unauthorized m url raw p).1.world.db ≡ p.world.db
  unfolding unauthorized eth_chain_id_unauthorized net_version_unauthorized
  unauthorized-db Method.accounts url raw p = ground (arith, request_add_new_dapp-db url raw p)
  unauthorized-db Method.chain_id url raw p = ground arith
  unauthorized-db Method.network_id url raw p = ground arith
  unauthorized-db (Method.send_transaction tx) url raw p = refl
  unauthorized-db (Method.personal_sign message address password) url raw p = refl
  unauthorized-db (Method.add_chain param) url raw p = refl
  unauthorized-db (Method.switch_chain param) url raw p = refl
  unauthorized-db Method.client_version url raw p = refl
  unauthorized-db (Method.sha3 payload) url raw p = refl
  unauthorized-db Method.other url raw p = refl

  -- No remote API is called, nothing is signed, and the database is the same.
  abbrev pub Harmless : Page → Page → Type 0
  Harmless p q =
      (count is_remote q.calls ≡ count is_remote p.calls)
      × (count is_signing q.calls ≡ count is_signing p.calls)
      × (q.world.db ≡ p.world.db)

  dispatch-Harmless :
      (r : InPageRequest) (url : Url) (raw : Text) (p : Page)
      → (fetch_session_for_approved_dapp url p).0 ≡ ok none
      → Harmless p (dispatch r url raw p).1
  unfolding dispatch dispatch_with fetch_session_for_approved_dapp
  dispatch-Harmless r url raw p h =
      let v : Page = (fetch_session_for_approved_dapp url p).1 in
      let calls = unauthorized-calls (method_of r) url raw v in
      let db = unauthorized-db (method_of r) url raw v in
      let before = fetch_session_for_approved_dapp-db url p h in
      (ground arith, ground arith, ground arith)

  handle_call-Harmless :
      (url : Url) (raw : Text) (request : RawRequest) (c : Result Text InPageRequest) (p : Page)
      → (fetch_session_for_approved_dapp url p).0 ≡ ok none
      → Harmless p (handle_call url raw request c p).1
  unfolding handle_call respond_with response_to
  handle_call-Harmless url raw request (err message) p h = (refl, refl, refl)
  handle_call-Harmless url raw request (ok r) p h =
      let d = dispatch-Harmless r url raw p h in (ground arith, ground arith, ground arith)

  -- A request of a page whose dapp is not approved calls no remote API, uses no signing key and
  -- leaves the database as it is, whatever the request is and however it ends.
  pub in_page_request_async-unapproved :
      (url : Url) (raw : Text) (p : Page)
      → (fetch_session_for_approved_dapp url p).0 ≡ ok none
      → Harmless p (in_page_request_async url raw p).1
  unfolding in_page_request_async raw_json_rpc_request respond_if_some respond_to_request count
      is_remote is_signing
  in_page_request_async-unapproved url raw p h = elim (Result-cases (parse_request raw)) [
    | inl (e, x) ↦ (ground arith, ground arith, ground arith)
    | inr (request, x) ↦
        let c : Result Text InPageRequest =
          impl.in_page_request_from_value request.method request.params in
        let d = handle_call-Harmless url raw request c p h in
        (ground arith, ground arith, ground arith)
  ]

  -- The answer of `unauthorized` to the methods that are not open, with the number of its error
  unauthorized-closed :
      (m : Method) (url : Url) (raw : Text) (p : Page)
      → is_open m ≡ false
      → (message : String) × (unauthorized m url raw p
          ≡ (err (Error.json_rpc (pos 4100) message), p))
  unfolding unauthorized is_open code_error to_i32
  unauthorized-closed Method.accounts url raw p h = cc
  unauthorized-closed Method.chain_id url raw p h = cc
  unauthorized-closed Method.network_id url raw p h = cc
  unauthorized-closed (Method.send_transaction tx) url raw p h = (_, refl)
  unauthorized-closed (Method.personal_sign message address password) url raw p h = (_, refl)
  unauthorized-closed (Method.add_chain param) url raw p h = (_, refl)
  unauthorized-closed (Method.switch_chain param) url raw p h = (_, refl)
  unauthorized-closed Method.client_version url raw p h = (_, refl)
  unauthorized-closed (Method.sha3 payload) url raw p h = (_, refl)
  unauthorized-closed Method.other url raw p h = (_, refl)

  -- What a page gets for the request `id` that it may not make: one response, with the error 4100
  abbrev pub Refused : Text → Page → Result Error (Unit {0}) → Page → Type 0
  Refused id p result q =
      (result ≡ ok tt)
      × ((message : String) × (q.calls
            ≡ Call.respond (impl.hex_encode (impl.error_response id (pos 4100) message)) ∷ p.calls))
      × (q.world.db ≡ p.world.db)

  handle_call-refused :
      (url : Url) (raw : Text) (request : RawRequest) (r : InPageRequest) (p : Page)
      → (fetch_session_for_approved_dapp url p).0 ≡ ok none
      → is_open (method_of r) ≡ false
      → (message : String) × ((handle_call url raw request (ok r) p).0
          ≡ ok (some (impl.error_response request.id (pos 4100) message)))
        × ((handle_call url raw request (ok r) p).1.calls ≡ p.calls)
  unfolding handle_call respond_with response_to dispatch dispatch_with
      fetch_session_for_approved_dapp
  handle_call-refused url raw request r p h closed =
      let v : Page = (fetch_session_for_approved_dapp url p).1 in
      let (message, refused) = unauthorized-closed (method_of r) url raw v closed in
      (message, ground arith, ground arith)

  -- A page whose dapp is not approved gets one response, with the error 4100 (Unauthorized), for
  -- every request that is understood and whose method is none of the accounts, the chain id and the
  -- network version. Nothing else is called and the database stays as it is.
  pub in_page_request_async-Refused :
      (url : Url) (raw : Text) (p : Page) (request : RawRequest) (r : InPageRequest)
      → (fetch_session_for_approved_dapp url p).0 ≡ ok none
      → parse_request raw ≡ ok request
      → impl.in_page_request_from_value request.method request.params ≡ ok r
      → is_open (method_of r) ≡ false
      → let (result, q) = in_page_request_async url raw p in Refused request.id p result q
  unfolding in_page_request_async raw_json_rpc_request respond_if_some respond_to_request
  in_page_request_async-Refused url raw p request r h parsed known closed =
      let (message, answer, calls) = handle_call-refused url raw request r p h closed in
      let (_, _, db) = in_page_request_async-unapproved url raw p h in
      (ground arith, (message, ground arith), db)
