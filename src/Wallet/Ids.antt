-- ===== src/Wallet/Ids.antt =====
-- core/src/db/deterministic_id.rs: the ids of the synced rows, as a hash of the values that define a
-- row, and the entities that have one.
pub mod Collisions
use sealvault.Prelude.{
  ℕ, Text, codes, Bool, true, false, ◌&&◌, ◌||◌, List, [], ◌∷◌, ◌++◌, text_eq, leb, ◌==◌, length,
  if◌then◌else◌, Option, some, none,
}
use sealvault.Prelude.Result.{Result, ok, err, ◌>>=◌}
use sealvault.Error.{Error}
use sealvault.Ethereum.{EthImpl}

pub data EntityName : Type 0 where
  account : EntityName
  account_picture : EntityName
  address : EntityName
  asymmetric_key : EntityName
  chain : EntityName
  dapp : EntityName
  data_encryption_key : EntityName
  data_migration : EntityName
  profile : EntityName
  profile_picture : EntityName
  token : EntityName
  token_to_address : EntityName

-- The derived `Display`, in snake case
unfoldable pub entity_name : EntityName → Text
entity_name EntityName.account = codes "account"
entity_name EntityName.account_picture = codes "account_picture"
entity_name EntityName.address = codes "address"
entity_name EntityName.asymmetric_key = codes "asymmetric_key"
entity_name EntityName.chain = codes "chain"
entity_name EntityName.dapp = codes "dapp"
entity_name EntityName.data_encryption_key = codes "data_encryption_key"
entity_name EntityName.data_migration = codes "data_migration"
entity_name EntityName.profile = codes "profile"
entity_name EntityName.profile_picture = codes "profile_picture"
entity_name EntityName.token = codes "token"
entity_name EntityName.token_to_address = codes "token_to_address"

-- 00572f578f78fb57992298bb3e20aa85bb5811f4f858aabc73c02e0f15b6c8cd
abbrev pub empty_marker : Text
empty_marker =
    0 ∷ 87 ∷ 47 ∷ 87 ∷ 143 ∷ 120 ∷ 251 ∷ 87 ∷ 153 ∷ 34 ∷ 152 ∷ 187 ∷ 62 ∷ 32 ∷ 170 ∷ 133 ∷ 187 ∷ 88
    ∷ 17 ∷ 244 ∷ 248 ∷ 88 ∷ 170 ∷ 188 ∷ 115 ∷ 192 ∷ 46 ∷ 15 ∷ 21 ∷ 182 ∷ 200 ∷ 205 ∷ []

unfoldable pub qualified_entity_name : EntityName → Text
unfolding entity_name
qualified_entity_name e = codes "org.sealvault.db.entity." ++ entity_name e

-- What a column adds to the hasher
unfoldable pub column_bytes : Text → Text
column_bytes [] = empty_marker
column_bytes (c ∷ cs) = c ∷ cs

abbrev pub marker_error : Error
marker_error =
    Error.retriable "Adversarial attempt to cause deterministic id collision using marker value."

-- The loop over the columns, with what the hasher has read
unfoldable pub hash_input : List Text → Text → Result Error Text
unfolding column_bytes
hash_input [] fed = ok fed
hash_input (v ∷ vs) fed =
    let rest = hash_input vs (fed ++ column_bytes v) in
    if text_eq v empty_marker then err marker_error else rest

is_base32 : ℕ → Bool
is_base32 c = (leb 65 c && leb c 90) || (leb 50 c && leb c 55)

all_base32 : Text → Bool
all_base32 [] = true
all_base32 (c ∷ cs) = is_base32 c && all_base32 cs

-- `DETERMINISTIC_ID_REGEX.is_match`
unfoldable pub is_deterministic_id : Text → Bool
unfolding all_base32 is_base32
is_deterministic_id s = length s == 52 && all_base32 s

-- `TryFrom<String> for DeterministicId`
unfoldable pub parse_id : Text → Result Error Text
parse_id s = if is_deterministic_id s then ok s else err (Error.fatal "Invalid deterministic id")

module _ ⦃eth : EthImpl⦄ where
  unfoldable pub deterministic_id : EntityName → List Text → Result Error Text
  deterministic_id e columns = do
    input ← hash_input columns (qualified_entity_name e)
    parse_id (eth.base32_nopad (eth.blake3 input))
