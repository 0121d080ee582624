-- ===== src/Wallet/Deks.antt =====
-- core/src/db/models/data_encryption_key.rs: the names of the data encryption keys, and new ones.
use sealvault.Prelude.{
  Text, codes, String, Bool, ◌||◌, List, [], ◌∷◌, ◌++◌, text_eq, str_eq, if◌then◌else◌,
}
use sealvault.Prelude.Result.{Result, ok, err}
use sealvault.Prelude.Exec.{◌>>=◌, ◌>>◌, pure, lift}
use sealvault.Error.{Error}
use sealvault.Ethereum.{EthImpl}
use sealvault.Db.{Db, DekRow, database_error}
use sealvault.System.{System, App, query, write}
use sealvault.Wallet.Ids.{EntityName, deterministic_id}
use sealvault.Wallet.Rows.{exists}

has_dek_id : Text → DekRow → Bool
has_dek_id id r = text_eq r.deterministic_id id

has_dek_name : String → DekRow → Bool
has_dek_name name r = str_eq r.name name

-- The primary key, and the unique name
unfoldable pub insert_dek_row : {T : Type 0} → DekRow → Db T → Result Error (Db T)
unfolding has_dek_id has_dek_name
insert_dek_row r db =
    if exists (has_dek_id r.deterministic_id) db.data_encryption_keys
      || exists (has_dek_name r.name) db.data_encryption_keys
    then err database_error
    else ok (record db { data_encryption_keys = db.data_encryption_keys ++ (r ∷ []) })

dek_names : List DekRow → List String
dek_names [] = []
dek_names (r ∷ rows) = r.name ∷ dek_names rows

module _ ⦃sys : System⦄ ⦃eth : EthImpl⦄ where
  -- `DataEncryptionKey::list_names`
  unfoldable pub list_names : App (List String)
  unfolding dek_names
  list_names = query (λ db. ok (dek_names db.data_encryption_keys))

  -- `NewDataEncryptionKey::insert`; the time of the row is not kept.
  unfoldable pub insert_new_dek : String → App Text
  unfolding insert_dek_row write
  insert_new_dek name = do
    id ← lift (deterministic_id EntityName.data_encryption_key (codes name ∷ []))
    write (insert_dek_row (record { deterministic_id = id; name = name }))
    pure id
