-- ===== src/Provider/Accounts.antt =====
-- core/src/protocols/eth/in_page_provider/dapp_key_provider.rs: the session of the page's dapp, the
-- answers that need it, and the notifications of the page.
use sealvault.Prelude.{Text, codes, Option, none, some, [], ◌∷◌}
use sealvault.Prelude.Result.{ok_or}
use sealvault.Prelude.Exec.{◌>>=◌, ◌>>◌, pure, lift}
use sealvault.Error.{Error}
use sealvault.Ethereum.{EthImpl, Url}
use sealvault.Ethereum.Chains.{ChainId, default_dapp_chain, network_version, to_u64}
use sealvault.Db.Settings.{fetch_active_profile_id}
use sealvault.System.{System, App, query, transaction}
use sealvault.Wallet.Dapps.{fetch_id_for_profile}
use sealvault.Wallet.Sessions.{
  LocalDappSession, create_eth_session_if_not_exists, update_last_used_at, change_eth_chain,
}
use sealvault.Provider.{
  ProviderImpl, PageApp, Call, Payload, ProviderEvent, ProviderMessage, in_app, call,
}
use sealvault.Provider.Codes.{to_value, parse_0x_chain_id, chain_id_json}
use sealvault.Provider.Request.{AddEthereumChainParameter, SwitchEthereumChainParameter}

abbrev client_name : Text
client_name = codes "SealVault"

module _ ⦃sys : System⦄ ⦃eth : EthImpl⦄ where
  unfoldable pub session_of_dapp : Text → Option Text → App (Option LocalDappSession)
  session_of_dapp profile_id none = pure none
  session_of_dapp profile_id (some dapp_id) = do
    session ←
        create_eth_session_if_not_exists
          (record { dapp_id = dapp_id; profile_id = profile_id; chain_id = default_dapp_chain })
    pure (some session)

  -- the callback of the transaction
  unfoldable pub session_in_tx : Url → App (Option LocalDappSession)
  unfolding session_of_dapp
  session_in_tx url = do
    profile_id ← query fetch_active_profile_id
    dapp_id ← fetch_id_for_profile url profile_id
    session_of_dapp profile_id dapp_id

  unfoldable pub fetch_session_for_approved_dapp : Url → PageApp (Option LocalDappSession)
  unfolding session_in_tx
  fetch_session_for_approved_dapp url = in_app (transaction (session_in_tx url))

module _ ⦃sys : System⦄ ⦃eth : EthImpl⦄ ⦃impl : ProviderImpl⦄ where
  unfoldable pub notify : ProviderMessage → PageApp (Unit {0})
  notify m = do
    json ←
        lift
          (ok_or (Error.fatal "Failed to deserialize message for event") (impl.message_to_json m))
    call (Call.notify (impl.hex_encode json))

  unfoldable pub notify_connect : ChainId → Text → PageApp (Unit {0})
  unfolding notify
  notify_connect c address = do
    json ← lift (
        ok_or (Error.fatal "Failed to deserialize SealVaultConnect event")
          (impl.to_json (Payload.connect (to_u64 c) (network_version c) address)))
    notify (record { event = ProviderEvent.seal_vault_connect; data_json = json })

  unfoldable pub notify_chain_changed : ChainId → PageApp (Unit {0})
  unfolding notify
  notify_chain_changed c = do
    json ← lift (chain_id_json c)
    notify (record { event = ProviderEvent.chain_changed; data_json = json })
    version ← lift (to_value (Payload.text (network_version c)))
    notify (record { event = ProviderEvent.network_changed; data_json = version })

  unfoldable pub eth_chain_id : LocalDappSession → PageApp Text
  eth_chain_id session = lift (to_value (Payload.u64 (to_u64 session.chain_id)))

  unfoldable pub eth_chain_id_unauthorized : PageApp Text
  eth_chain_id_unauthorized = lift (to_value (Payload.u64 (to_u64 default_dapp_chain)))

  unfoldable pub net_version_unauthorized : PageApp Text
  net_version_unauthorized = lift (to_value (Payload.text (network_version default_dapp_chain)))

  unfoldable pub eth_request_accounts : LocalDappSession → PageApp Text
  unfolding notify_connect
  eth_request_accounts session = do
    used ← in_app (transaction (update_last_used_at session))
    notify_connect used.chain_id used.address
    lift (to_value (Payload.addresses (used.address ∷ [])))

  unfoldable pub change_chain : LocalDappSession → ChainId → PageApp (Unit {0})
  unfolding notify_chain_changed
  change_chain session c = do
    in_app (transaction (change_eth_chain session c))
    notify_chain_changed c

  unfoldable pub wallet_add_ethereum_chain :
      AddEthereumChainParameter → LocalDappSession → PageApp Text
  unfolding change_chain
  wallet_add_ethereum_chain param session = do
    c ← lift (parse_0x_chain_id param.chain_id)
    change_chain session c
    lift (to_value Payload.null)

  unfoldable pub wallet_switch_ethereum_chain :
      SwitchEthereumChainParameter → LocalDappSession → PageApp Text
  unfolding change_chain
  wallet_switch_ethereum_chain param session = do
    c ← lift (parse_0x_chain_id param.chain_id)
    change_chain session c
    lift (to_value Payload.null)

  unfoldable pub web3_client_version : PageApp Text
  web3_client_version = pure (impl.string_value client_name)

  unfoldable pub web3_sha3 : Text → PageApp Text
  web3_sha3 payload = lift (to_value (Payload.text (impl.keccak_hex payload)))
