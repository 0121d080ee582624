-- ===== src/Tests/Pages.antt =====
-- Examples of requests from a page, of sessions, ids and migrations, on the small system.
use sealvault.Prelude.{◌≡◌, refl, Text, codes, false, Option, none, [], ◌∷◌, ◌≤◌, ◌+◌}
use sealvault.Prelude.Result.{Result, ok}
use sealvault.Error.{Error}
use sealvault.Ethereum.{SigningKey}
use sealvault.Ethereum.Chains.{ChainId}
use sealvault.System.{World}
use sealvault.Provider.{Page, RawRequest}
use sealvault.Provider.Accounts.{fetch_session_for_approved_dapp}
use sealvault.Provider.Answers.{in_page_request_async-answers}
use sealvault.Provider.Capabilities.{one_if, may_sign, may_call, dispatch-reach}
use sealvault.Provider.Codes.{parse_request}
use sealvault.Provider.Dispatch.{dispatch, in_page_request_async}
use sealvault.Provider.Frames.{one_more_if_ok}
use sealvault.Provider.Request.{InPageRequest, method_of}
use sealvault.Provider.Trace.{count, is_answer, is_remote, is_signing}
use sealvault.Provider.Unapproved.{
  is_open, Refused, in_page_request_async-unapproved, in_page_request_async-Refused,
}
use sealvault.Tests.Toy.{toy}
use sealvault.Tests.ToyPage.{toy_eth, toy_impl, toy_url, toy_address, unknown_page, approved_page}

abbrev signing : InPageRequest
signing = InPageRequest.personal_sign (codes "hi") toy_address none

abbrev handle : Text → Page ⦃sys = toy⦄ → Result Error (Unit {0}) × Page ⦃sys = toy⦄
handle = in_page_request_async ⦃sys = toy⦄ ⦃eth = toy_eth⦄ ⦃impl = toy_impl⦄ toy_url

unknown_run :
    (fetch_session_for_approved_dapp ⦃sys = toy⦄ ⦃eth = toy_eth⦄ toy_url unknown_page).0 ≡ ok none
unfolding fetch_session_for_approved_dapp sealvault.System.transaction
    sealvault.Db.Settings.fetch_active_profile_id sealvault.Wallet.Dapps.fetch_id_for_profile
    sealvault.Wallet.Ids.deterministic_id sealvault.Wallet.Ids.hash_input
    sealvault.Wallet.Ids.parse_id sealvault.Wallet.Ids.is_deterministic_id
    sealvault.Wallet.Ids.qualified_entity_name sealvault.Wallet.Rows.exists
unknown_run = refl

in_page_request_async-unapproved_example :
    (count is_remote (handle (3 ∷ []) unknown_page).1.calls ≡ count is_remote [])
    × (count is_signing (handle (3 ∷ []) unknown_page).1.calls ≡ count is_signing [])
    × ((handle (3 ∷ []) unknown_page).1.world.db ≡ unknown_page.world.db)
in_page_request_async-unapproved_example =
    in_page_request_async-unapproved ⦃sys = toy⦄ ⦃eth = toy_eth⦄ ⦃impl = toy_impl⦄ toy_url (3 ∷ [])
      unknown_page unknown_run

signing_closed : is_open (method_of signing) ≡ false
unfolding is_open method_of
signing_closed = refl

abbrev sign_request : RawRequest
sign_request = record { id = codes "1"; method = 3 ∷ []; params = [] }

sign_request_run : parse_request ⦃impl = toy_impl⦄ (3 ∷ []) ≡ ok sign_request
unfolding parse_request
sign_request_run = refl

in_page_request_async-Refused_example :
    let (result, q) = handle (3 ∷ []) unknown_page in
    Refused ⦃sys = toy⦄ ⦃eth = toy_eth⦄ ⦃impl = toy_impl⦄ (codes "1") unknown_page result q
in_page_request_async-Refused_example =
    in_page_request_async-Refused ⦃sys = toy⦄ ⦃eth = toy_eth⦄ ⦃impl = toy_impl⦄ toy_url (3 ∷ [])
      unknown_page sign_request signing unknown_run sign_request_run refl signing_closed

in_page_request_async-answers_example :
    let (r, q) = handle (1 ∷ []) unknown_page in
    count is_answer q.calls ≡ one_more_if_ok r (count is_answer [])
in_page_request_async-answers_example =
    in_page_request_async-answers ⦃sys = toy⦄ ⦃eth = toy_eth⦄ ⦃impl = toy_impl⦄ toy_url (1 ∷ [])
      unknown_page

-- A page that asks for the accounts leads to one request to the user.
unknown_asked : count is_answer (handle (1 ∷ []) unknown_page).1.calls ≡ 1
unfolding count in_page_request_async sealvault.Provider.Dispatch.raw_json_rpc_request
    sealvault.Provider.Codes.parse_request sealvault.Provider.Dispatch.handle_call
    sealvault.Provider.Dispatch.respond_with sealvault.Provider.Dispatch.response_to dispatch
    fetch_session_for_approved_dapp sealvault.System.transaction
    sealvault.Db.Settings.fetch_active_profile_id sealvault.Wallet.Dapps.fetch_id_for_profile
    sealvault.Wallet.Ids.deterministic_id sealvault.Wallet.Ids.hash_input
    sealvault.Wallet.Ids.parse_id sealvault.Wallet.Ids.is_deterministic_id
    sealvault.Wallet.Ids.qualified_entity_name sealvault.Wallet.Rows.exists
    sealvault.Provider.Dispatch.dispatch_with sealvault.Provider.Dispatch.unauthorized method_of
    sealvault.Provider.Approval.request_add_new_dapp sealvault.Provider.Approval.approval_data
    sealvault.Wallet.Chains.fetch_user_settings_for_eth_chain sealvault.Ethereum.Chains.to_u64
    sealvault.Wallet.Rows.first sealvault.Wallet.Dapps.dapp_identifier is_answer
unknown_asked = refl

abbrev sign_hi : Result Error (Option Text) × Page ⦃sys = toy⦄
sign_hi =
    dispatch ⦃sys = toy⦄ ⦃eth = toy_eth⦄ ⦃impl = toy_impl⦄ signing toy_url (3 ∷ []) approved_page

dispatch-reach_example :
    (count is_remote sign_hi.1.calls
      ≤ one_if (may_call (method_of signing) signing) + count is_remote [])
    × (count is_signing sign_hi.1.calls
        ≤ one_if (may_sign (method_of signing)) + count is_signing [])
dispatch-reach_example =
    dispatch-reach ⦃sys = toy⦄ ⦃eth = toy_eth⦄ ⦃impl = toy_impl⦄ signing toy_url (3 ∷ [])
      approved_page
