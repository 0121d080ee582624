-- ===== src/Wallet/Dapps.antt =====
-- core/src/db/models/dapp.rs, with core/src/public_suffix_list.rs: a dapp is identified by its
-- registrable domain, or by its origin where it has none.
use sealvault.Prelude.{
  Text, Bool, ◌&&◌, ◌||◌, List, [], ◌∷◌, ◌++◌, Option, none, some, text_eq, if◌then◌else◌,
}
use sealvault.Prelude.Result.{Result, ok, ok_or, ◌>>=◌ as and_then}
use sealvault.Prelude.Exec.{◌>>=◌, ◌>>◌, pure, lift}
use sealvault.Error.{Error}
use sealvault.Ethereum.{EthImpl, Host, Origin, Url}
use sealvault.Db.{Db, record_not_found}
use sealvault.System.{System, App, on_clock, query, update}
use sealvault.Wallet.{Dapp, AsymmetricKey, Profile, Wallet}
use sealvault.Wallet.Ids.{EntityName, deterministic_id}
use sealvault.Wallet.Rows.{first, exists, filter, is_some_text}

pub data RegistrableDomain : Type 0 where
  null : RegistrableDomain
  domain : Text → RegistrableDomain

-- `DappEntity`
pub record DappEntity : Type 0 where
  pub identifier : Text
  pub url : Text

module _ ⦃eth : EthImpl⦄ where
  domain_of : Option Text → Result Error RegistrableDomain
  domain_of none = ok RegistrableDomain.null
  domain_of (some value) = and_then (eth.from_utf8 value) λ s. ok (RegistrableDomain.domain s)

  registrable_domain_for_host : Host → Result Error RegistrableDomain
  unfolding domain_of
  registrable_domain_for_host (Host.domain d) = domain_of (eth.psl_domain d)
  registrable_domain_for_host (Host.ip a) = ok RegistrableDomain.null

  unfoldable pub registrable_domain : Origin → Result Error RegistrableDomain
  unfolding registrable_domain_for_host
  registrable_domain (Origin.tuple scheme host port) = registrable_domain_for_host host
  registrable_domain (Origin.opaque n) = ok RegistrableDomain.null

  identifier_or_origin : Origin → RegistrableDomain → Text
  identifier_or_origin o RegistrableDomain.null = eth.ascii_serialization o
  identifier_or_origin o (RegistrableDomain.domain d) = d

  -- `DappEntity::new`
  unfoldable pub dapp_entity : Url → Result Error DappEntity
  unfolding registrable_domain identifier_or_origin
  dapp_entity url =
      and_then (registrable_domain url.origin)
        λ d. ok (record { identifier = identifier_or_origin url.origin d; url = url.as_str })

  -- `Dapp::dapp_identifier`
  unfoldable pub dapp_identifier : Url → Result Error Text
  unfolding dapp_entity
  dapp_identifier url = and_then (dapp_entity url) λ e. ok e.identifier

  unfoldable pub dapp_entity_id : DappEntity → Result Error Text
  dapp_entity_id e = deterministic_id EntityName.dapp (e.identifier ∷ [])

unfoldable pub has_dapp_id : Text → Dapp → Bool
has_dapp_id id d = text_eq d.deterministic_id id

has_identifier : Text → Dapp → Bool
has_identifier i d = text_eq d.identifier i

unfoldable pub has_profile_id : Text → Profile → Bool
has_profile_id id p = text_eq p.deterministic_id id

-- The insert with `on_conflict_do_nothing`
unfoldable pub insert_dapp : {T : Type 0} → Dapp → Db T → Db T
unfolding has_dapp_id has_identifier
insert_dapp d db =
    if exists (has_dapp_id d.deterministic_id) db.wallet.dapps
      || exists (has_identifier d.identifier) db.wallet.dapps
    then db
    else record db { wallet = record db.wallet { dapps = db.wallet.dapps ++ (d ∷ []) } }

-- A key of the profile for the dapp
unfoldable pub is_dapp_key : Text → Text → AsymmetricKey → Bool
is_dapp_key profile_id dapp_id k = text_eq k.profile_id profile_id && is_some_text dapp_id k.dapp_id

-- The rows of `Dapp::list_for_profile`, one for each key
unfoldable pub dapps_of_keys : Text → List Dapp → List AsymmetricKey → List Dapp
unfolding has_dapp_id
dapps_of_keys profile_id ds [] = []
dapps_of_keys profile_id ds (k ∷ ks) =
    let rest = dapps_of_keys profile_id ds ks in
    if text_eq k.profile_id profile_id
    then filter (λ d. is_some_text d.deterministic_id k.dapp_id) ds ++ rest
    else rest

-- The joins of `DappEntity::fetch_id_for_profile`
unfoldable pub is_added : Text → Text → Wallet → Bool
unfolding is_dapp_key has_dapp_id has_profile_id
is_added profile_id dapp_id w =
    exists (is_dapp_key profile_id dapp_id) w.asymmetric_keys
    && exists (has_profile_id profile_id) w.profiles
    && exists (has_dapp_id dapp_id) w.dapps

module _ ⦃eth : EthImpl⦄ where
  unfoldable pub find_id_for_profile : {T : Type 0} → Url → Text → Db T → Result Error (Option Text)
  unfolding dapp_entity dapp_entity_id is_added
  find_id_for_profile url profile_id db = and_then (dapp_entity url) λ e.
      and_then (dapp_entity_id e)
        λ id. ok (if is_added profile_id id db.wallet then some id else none)

unfoldable pub find_dapp_identifier : {T : Type 0} → Text → Db T → Result Error Text
unfolding has_dapp_id
find_dapp_identifier id db =
    and_then (ok_or record_not_found (first (has_dapp_id id) db.wallet.dapps)) λ d. ok d.identifier

module _ ⦃sys : System⦄ ⦃eth : EthImpl⦄ where
  -- `Dapp::list_all` and `Dapp::list_for_profile`
  unfoldable pub list_all_dapps : App (List Dapp)
  list_all_dapps = query (λ db. ok db.wallet.dapps)

  unfoldable pub list_for_profile : Text → App (List Dapp)
  unfolding dapps_of_keys
  list_for_profile profile_id =
      query (λ db. ok (dapps_of_keys profile_id db.wallet.dapps db.wallet.asymmetric_keys))

  unfoldable pub fetch_dapp_identifier : Text → App Text
  unfolding find_dapp_identifier
  fetch_dapp_identifier id = query (find_dapp_identifier id)

  -- `Dapp::fetch_id_for_profile`
  unfoldable pub fetch_id_for_profile : Url → Text → App (Option Text)
  unfolding find_id_for_profile
  fetch_id_for_profile url profile_id = query (find_id_for_profile url profile_id)

  -- `Dapp::create_if_not_exists`
  unfoldable pub create_if_not_exists : Url → App Text
  unfolding dapp_entity dapp_entity_id insert_dapp
  create_if_not_exists url = do
    entity ← lift (dapp_entity url)
    id ← lift (dapp_entity_id entity)
    now ← on_clock sys.os.rfc3339_timestamp
    update (
        insert_dapp (record {
          deterministic_id = id;
          identifier = entity.identifier;
          url = entity.url;
          created_at = now;
          updated_at = none;
        }))
    pure id
