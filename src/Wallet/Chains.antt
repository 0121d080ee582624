-- ===== src/Wallet/Chains.antt =====
-- core/src/db/models/chain.rs: the chains of the database, which are created when they are first
-- needed.
use sealvault.Prelude.{
  Text, codes, Bool, ◌&&◌, ◌||◌, List, [], ◌∷◌, ◌++◌, Option, none, some, text_eq, if◌then◌else◌,
}
use sealvault.Prelude.Result.{Result, ok, err, ok_or, ◌>>=◌ as and_then}
use sealvault.Prelude.Exec.{◌>>=◌, ◌>>◌, pure, lift}
use sealvault.Error.{Error}
use sealvault.Ethereum.{EthImpl}
use sealvault.Ethereum.Chains.{ChainId, ChainSettings, default_user_settings}
use sealvault.Db.{Db, record_not_found, database_error}
use sealvault.System.{System, App, on_clock, query, write}
use sealvault.Wallet.{Chain, BlockchainProtocol}
use sealvault.Wallet.Ids.{EntityName, deterministic_id}
use sealvault.Wallet.Rows.{first, exists}

-- `BlockchainProtocol::to_string`
abbrev pub ethereum_name : Text
ethereum_name = codes "ethereum"

is_ethereum : BlockchainProtocol → Bool
is_ethereum BlockchainProtocol.ethereum = Bool.true

unfoldable pub has_chain_id : Text → Chain → Bool
has_chain_id id c = text_eq c.deterministic_id id

unfoldable pub has_protocol_data : Text → Chain → Bool
unfolding is_ethereum
has_protocol_data json c = is_ethereum c.protocol && text_eq c.protocol_data json

-- The primary key, and the unique constraint on the protocol and its data
unfoldable pub insert_chain : {T : Type 0} → Chain → Db T → Result Error (Db T)
unfolding has_chain_id has_protocol_data
insert_chain c db =
    if exists (has_chain_id c.deterministic_id) db.wallet.chains
      || exists (has_protocol_data c.protocol_data) db.wallet.chains
    then err database_error
    else ok (record db { wallet = record db.wallet { chains = db.wallet.chains ++ (c ∷ []) } })

module _ ⦃eth : EthImpl⦄ where
  -- `ChainEntity::new_eth` and its id
  unfoldable pub chain_entity_id : ChainId → Result Error Text
  chain_entity_id c =
      and_then (eth.protocol_data_json c)
        λ json. deterministic_id EntityName.chain (ethereum_name ∷ (json ∷ []))

  -- `TryFrom<Chain> for EthChain` and the loop of `list_eth_chains`
  unfoldable pub eth_chains : List Chain → Result Error (List (Text × (ChainId × ChainSettings)))
  eth_chains [] = ok []
  eth_chains (c ∷ cs) =
      let rest = eth_chains cs in
      and_then (eth.protocol_data_from_json c.protocol_data) λ id.
        and_then (eth.chain_settings_from_json c.user_settings)
          λ settings. and_then rest λ tail. ok ((c.deterministic_id, (id, settings)) ∷ tail)

  unfoldable pub fetch_chain_data : {T : Type 0} → Text → Db T → Result Error ChainId
  unfolding has_chain_id
  fetch_chain_data id db =
      and_then (ok_or record_not_found (first (has_chain_id id) db.wallet.chains))
        λ c. eth.protocol_data_from_json c.protocol_data

  unfoldable pub fetch_settings : {T : Type 0} → ChainId → Db T → Result Error ChainSettings
  unfolding chain_entity_id has_chain_id
  fetch_settings c db = and_then (chain_entity_id c) λ id.
      and_then (ok_or record_not_found (first (has_chain_id id) db.wallet.chains))
        λ row. eth.chain_settings_from_json row.user_settings

  -- The id of the first row, if there is one
  unfoldable pub row_id : Option Chain → Option Text
  row_id none = none
  row_id (some c) = some c.deterministic_id

  unfoldable pub find_chain_id : {T : Type 0} → ChainId → Db T → Result Error (Option Text)
  unfolding has_protocol_data row_id
  find_chain_id c db =
      and_then (eth.protocol_data_json c)
        λ json. ok (row_id (first (has_protocol_data json) db.wallet.chains))

module _ ⦃sys : System⦄ ⦃eth : EthImpl⦄ where
  -- `Chain::fetch_eth_chain_id`
  unfoldable pub fetch_eth_chain_id : Text → App ChainId
  unfolding fetch_chain_data
  fetch_eth_chain_id id = query (fetch_chain_data id)

  -- `Chain::fetch_user_settings_for_eth_chain`
  unfoldable pub fetch_user_settings_for_eth_chain : ChainId → App ChainSettings
  unfolding fetch_settings
  fetch_user_settings_for_eth_chain c = query (fetch_settings c)

  unfoldable pub fetch_eth_chain_deterministic_id : ChainId → App (Option Text)
  unfolding find_chain_id
  fetch_eth_chain_deterministic_id c = query (find_chain_id c)

  unfoldable pub create_eth_chain : ChainId → App Text
  unfolding chain_entity_id insert_chain write
  create_eth_chain c = do
    json ← lift (eth.protocol_data_json c)
    settings ← lift (eth.chain_settings_json (default_user_settings c))
    id ← lift (chain_entity_id c)
    now ← on_clock sys.os.rfc3339_timestamp
    write (
        insert_chain (record {
          deterministic_id = id;
          protocol = BlockchainProtocol.ethereum;
          protocol_data = json;
          user_settings = settings;
          created_at = now;
          updated_at = none;
        }))
    pure id

  unfoldable pub found_or_created : ChainId → Option Text → App Text
  unfolding create_eth_chain
  found_or_created c (some id) = pure id
  found_or_created c none = create_eth_chain c

  unfoldable pub fetch_or_create_eth_chain_id : ChainId → App Text
  unfolding fetch_eth_chain_deterministic_id found_or_created
  fetch_or_create_eth_chain_id c = do
    found ← fetch_eth_chain_deterministic_id c
    found_or_created c found
