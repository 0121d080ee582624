-- ===== src/Ethereum/Chains.antt =====
-- core/src/protocols/eth/chain_id.rs and chain_settings.rs: the chains that are supported, with
-- their numbers and names, and the settings of a chain.
use sealvault.Prelude.{ℕ, ◌^◌, String, Text, codes, Bool, true, false, ◌==◌, if◌then◌else◌}
use sealvault.Prelude.Result.{Result, ok, err}
use sealvault.Error.{Error}

pub data ChainId : Type 0 where
  eth_mainnet : ChainId
  eth_goerli : ChainId
  polygon_mainnet : ChainId
  polygon_mumbai : ChainId

pub data NativeToken : Type 0 where
  eth : NativeToken
  matic : NativeToken

abbrev pub default_dapp_chain : ChainId
default_dapp_chain = ChainId.polygon_mainnet

abbrev pub default_wallet_chain : ChainId
default_wallet_chain = default_dapp_chain

unfoldable pub network_version : ChainId → Text
network_version ChainId.eth_mainnet = codes "1"
network_version ChainId.eth_goerli = codes "5"
network_version ChainId.polygon_mainnet = codes "137"
network_version ChainId.polygon_mumbai = codes "80001"

unfoldable pub display_name : ChainId → String
display_name ChainId.eth_mainnet = "Ethereum"
display_name ChainId.eth_goerli = "Ethereum Goerli Testnet"
display_name ChainId.polygon_mainnet = "Polygon PoS"
display_name ChainId.polygon_mumbai = "Polygon PoS Mumbai Testnet"

unfoldable pub explorer_url : ChainId → Text
explorer_url ChainId.eth_mainnet = codes "https://etherscan.io/"
explorer_url ChainId.eth_goerli = codes "https://goerli.etherscan.io/"
explorer_url ChainId.polygon_mainnet = codes "https://polygonscan.com/"
explorer_url ChainId.polygon_mumbai = codes "https://mumbai.polygonscan.com/"

unfoldable pub is_test_net : ChainId → Bool
is_test_net ChainId.eth_mainnet = false
is_test_net ChainId.eth_goerli = true
is_test_net ChainId.polygon_mainnet = false
is_test_net ChainId.polygon_mumbai = true

unfoldable pub native_token : ChainId → NativeToken
native_token ChainId.eth_mainnet = NativeToken.eth
native_token ChainId.eth_goerli = NativeToken.eth
native_token ChainId.polygon_mainnet = NativeToken.matic
native_token ChainId.polygon_mumbai = NativeToken.matic

-- `NativeTokenAmount`, in the smallest unit
pub record NativeTokenAmount : Type 0 where
  pub chain_id : ChainId
  pub amount : ℕ

pub record ChainSettings : Type 0 where
  pub default_dapp_allotment : NativeTokenAmount

-- `parse_units` of 0 and of 0.1, with the eighteen decimals of an ether
allotment_units : ChainId → ℕ
allotment_units ChainId.eth_mainnet = 0
allotment_units ChainId.eth_goerli = 10 ^ 17
allotment_units ChainId.polygon_mainnet = 10 ^ 17
allotment_units ChainId.polygon_mumbai = 10 ^ 17

default_dapp_allotment : ChainId → NativeTokenAmount
unfolding allotment_units
default_dapp_allotment c = record { chain_id = c; amount = allotment_units c }

unfoldable pub default_user_settings : ChainId → ChainSettings
unfolding default_dapp_allotment
default_user_settings c = record { default_dapp_allotment = default_dapp_allotment c }

unfoldable pub to_u64 : ChainId → ℕ
to_u64 ChainId.eth_mainnet = 1
to_u64 ChainId.eth_goerli = 5
to_u64 ChainId.polygon_mainnet = 137
to_u64 ChainId.polygon_mumbai = 80001

-- The text of the number is left out of the message.
unfoldable pub try_from_u64 : ℕ → Result Error ChainId
try_from_u64 n =
    if n == 1
    then ok ChainId.eth_mainnet
    else if n == 5
    then ok ChainId.eth_goerli
    else if n == 137
    then ok ChainId.polygon_mainnet
    else if n == 80001
    then ok ChainId.polygon_mumbai
    else err (Error.retriable "Unsupported u64 chain id")
