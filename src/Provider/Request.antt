-- ===== src/Provider/Request.antt =====
-- core/src/protocols/eth/in_page_provider/in_page_request.rs: the requests that the page of a dapp
-- may send, and those of them that are passed on to the remote API. Arguments whose types are of
-- other crates are given by their text.
use sealvault.Prelude.{ℕ, Text, Bool, true, false, List, Option}

pub record AddEthereumChainParameter : Type 0 where
  pub chain_id : Text

pub record SwitchEthereumChainParameter : Type 0 where
  pub chain_id : Text

-- `TransactionRequest` of the crate `ethers`, of which the code sets the nonce
pub record TransactionRequest : Type 0 where
  pub nonce : Option ℕ
  pub fields : Text

pub data InPageRequest : Type 0 where
  personal_sign : Text → Text → Option Text → InPageRequest
  wallet_add_ethereum_chain : AddEthereumChainParameter → InPageRequest
  wallet_switch_ethereum_chain : SwitchEthereumChainParameter → InPageRequest
  web3_client_version : InPageRequest
  web3_sha3 : Text → InPageRequest
  eth_chain_id : InPageRequest
  eth_network_id : InPageRequest
  net_listening : InPageRequest
  eth_gas_price : InPageRequest
  eth_max_priority_fee_per_gas : InPageRequest
  eth_accounts : InPageRequest
  eth_block_number : InPageRequest
  eth_get_balance : Text → Option Text → InPageRequest
  eth_get_storage_at : Text → ℕ → Option Text → InPageRequest
  eth_get_block_by_hash : Text → Bool → InPageRequest
  eth_get_block_by_number : Text → Bool → InPageRequest
  eth_get_transaction_count : Text → Option Text → InPageRequest
  eth_get_transaction_count_by_hash : Text → InPageRequest
  eth_get_transaction_count_by_number : Text → InPageRequest
  eth_get_uncles_count_by_hash : Text → InPageRequest
  eth_get_uncles_count_by_number : Text → InPageRequest
  eth_get_code_at : Text → Option Text → InPageRequest
  eth_get_proof : Text → List Text → Option Text → InPageRequest
  eth_sign : Text → Text → InPageRequest
  eth_sign_typed_data : Text → Text → InPageRequest
  eth_sign_typed_data_v3 : Text → Text → InPageRequest
  eth_sign_typed_data_v4 : Text → Text → InPageRequest
  eth_send_transaction : TransactionRequest → InPageRequest
  eth_send_raw_transaction : Text → InPageRequest
  eth_call : TransactionRequest → Option Text → InPageRequest
  eth_create_access_list : TransactionRequest → Option Text → InPageRequest
  eth_estimate_gas : TransactionRequest → Option Text → InPageRequest
  eth_get_transaction_by_hash : Text → InPageRequest
  eth_get_transaction_by_block_hash_and_index : Text → Text → InPageRequest
  eth_get_transaction_by_block_number_and_index : Text → Text → InPageRequest
  eth_get_transaction_receipt : Text → InPageRequest
  eth_get_uncle_by_block_hash_and_index : Text → Text → InPageRequest
  eth_get_uncle_by_block_number_and_index : Text → Text → InPageRequest
  eth_get_logs : Text → InPageRequest
  eth_new_filter : Text → InPageRequest
  eth_get_filter_changes : Text → InPageRequest
  eth_new_block_filter : InPageRequest
  eth_new_pending_transaction_filter : InPageRequest
  eth_get_filter_logs : Text → InPageRequest
  eth_uninstall_filter : Text → InPageRequest
  eth_get_work : InPageRequest
  eth_submit_work : Text → Text → Text → InPageRequest
  eth_submit_hash_rate : ℕ → Text → InPageRequest
  eth_fee_history : ℕ → Text → List Text → InPageRequest
  eth_syncing : InPageRequest
  debug_trace_transaction : Text → Text → InPageRequest
  debug_trace_call : TransactionRequest → Option Text → Text → InPageRequest
  trace_transaction : Text → InPageRequest
  trace_block : Text → InPageRequest
  tx_pool_status : InPageRequest
  tx_pool_inspect : InPageRequest
  tx_pool_content : InPageRequest

unfoldable pub allow_proxy : InPageRequest → Bool
allow_proxy (InPageRequest.personal_sign _ _ _) = false
allow_proxy (InPageRequest.wallet_add_ethereum_chain _) = false
allow_proxy (InPageRequest.wallet_switch_ethereum_chain _) = false
allow_proxy InPageRequest.web3_client_version = false
allow_proxy (InPageRequest.web3_sha3 _) = false
allow_proxy InPageRequest.eth_chain_id = false
allow_proxy InPageRequest.eth_network_id = false
allow_proxy InPageRequest.net_listening = true
allow_proxy InPageRequest.eth_gas_price = true
allow_proxy InPageRequest.eth_max_priority_fee_per_gas = true
allow_proxy InPageRequest.eth_accounts = false
allow_proxy InPageRequest.eth_block_number = true
allow_proxy (InPageRequest.eth_get_balance _ _) = true
allow_proxy (InPageRequest.eth_get_storage_at _ _ _) = true
allow_proxy (InPageRequest.eth_get_block_by_hash _ _) = true
allow_proxy (InPageRequest.eth_get_block_by_number _ _) = true
allow_proxy (InPageRequest.eth_get_transaction_count _ _) = true
allow_proxy (InPageRequest.eth_get_transaction_count_by_hash _) = true
allow_proxy (InPageRequest.eth_get_transaction_count_by_number _) = true
allow_proxy (InPageRequest.eth_get_uncles_count_by_hash _) = true
allow_proxy (InPageRequest.eth_get_uncles_count_by_number _) = true
allow_proxy (InPageRequest.eth_get_code_at _ _) = true
allow_proxy (InPageRequest.eth_get_proof _ _ _) = true
allow_proxy (InPageRequest.eth_sign _ _) = false
allow_proxy (InPageRequest.eth_sign_typed_data _ _) = false
allow_proxy (InPageRequest.eth_sign_typed_data_v3 _ _) = false
allow_proxy (InPageRequest.eth_sign_typed_data_v4 _ _) = false
allow_proxy (InPageRequest.eth_send_transaction _) = false
allow_proxy (InPageRequest.eth_send_raw_transaction _) = true
allow_proxy (InPageRequest.eth_call _ _) = true
allow_proxy (InPageRequest.eth_create_access_list _ _) = true
allow_proxy (InPageRequest.eth_estimate_gas _ _) = true
allow_proxy (InPageRequest.eth_get_transaction_by_hash _) = true
allow_proxy (InPageRequest.eth_get_transaction_by_block_hash_and_index _ _) = true
allow_proxy (InPageRequest.eth_get_transaction_by_block_number_and_index _ _) = true
allow_proxy (InPageRequest.eth_get_transaction_receipt _) = true
allow_proxy (InPageRequest.eth_get_uncle_by_block_hash_and_index _ _) = true
allow_proxy (InPageRequest.eth_get_uncle_by_block_number_and_index _ _) = true
allow_proxy (InPageRequest.eth_get_logs _) = true
allow_proxy (InPageRequest.eth_new_filter _) = true
allow_proxy (InPageRequest.eth_get_filter_changes _) = true
allow_proxy InPageRequest.eth_new_block_filter = true
allow_proxy InPageRequest.eth_new_pending_transaction_filter = true
allow_proxy (InPageRequest.eth_get_filter_logs _) = true
allow_proxy (InPageRequest.eth_uninstall_filter _) = true
allow_proxy InPageRequest.eth_get_work = true
allow_proxy (InPageRequest.eth_submit_work _ _ _) = false
allow_proxy (InPageRequest.eth_submit_hash_rate _ _) = true
allow_proxy (InPageRequest.eth_fee_history _ _ _) = true
allow_proxy InPageRequest.eth_syncing = true
allow_proxy (InPageRequest.debug_trace_transaction _ _) = true
allow_proxy (InPageRequest.debug_trace_call _ _ _) = true
allow_proxy (InPageRequest.trace_transaction _) = true
allow_proxy (InPageRequest.trace_block _) = true
allow_proxy InPageRequest.tx_pool_status = true
allow_proxy InPageRequest.tx_pool_inspect = true
allow_proxy InPageRequest.tx_pool_content = true

-- The arms of `dispatch` and `dispatch_authorized_methods`
pub data Method : Type 0 where
  accounts : Method
  chain_id : Method
  network_id : Method
  send_transaction : TransactionRequest → Method
  personal_sign : Text → Text → Option Text → Method
  add_chain : AddEthereumChainParameter → Method
  switch_chain : SwitchEthereumChainParameter → Method
  client_version : Method
  sha3 : Text → Method
  other : Method

unfoldable pub method_of : InPageRequest → Method
method_of InPageRequest.eth_accounts = Method.accounts
method_of InPageRequest.eth_chain_id = Method.chain_id
method_of InPageRequest.eth_network_id = Method.network_id
method_of (InPageRequest.eth_send_transaction tx) = Method.send_transaction tx
method_of (InPageRequest.personal_sign message address password) =
    Method.personal_sign message address password
method_of (InPageRequest.wallet_add_ethereum_chain param) = Method.add_chain param
method_of (InPageRequest.wallet_switch_ethereum_chain param) = Method.switch_chain param
method_of InPageRequest.web3_client_version = Method.client_version
method_of (InPageRequest.web3_sha3 payload) = Method.sha3 payload
method_of _ = Method.other
