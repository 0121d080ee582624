-- ===== src/Core.antt =====
-- core/src/app_core.rs: the operations that the user interface calls and that need neither views of
-- the data nor the remote API.
pub mod Enabling
use sealvault.Prelude.{ℕ, Text, Bool, true, false, Option, none, some, if◌then◌else◌}
use sealvault.Prelude.Result.{Result, ok, err, map_err}
use sealvault.Prelude.Exec.{Exec, ◌>>=◌, ◌>>◌, pure, raise, lift}
use sealvault.Error.{
  Error, CoreError, BackupError, to_core_error, backup_to_core_error, core_to_backup_error,
}
use sealvault.Backup.Create.{Device}
use sealvault.Backup.Create.{create_backup}
use sealvault.Backup.Setup.{set_up_or_rotate_backup, disable_backup, is_backup_enabled}
use sealvault.Db.Settings
use sealvault.Db.Settings.{fetch_active_profile_id}
use sealvault.Ethereum.{EthImpl}
use sealvault.Ethereum.Chains.{ChainId, try_from_u64}
use sealvault.System.{
  System, World, App, BackupApp, as_backup, connection, transaction, query, write,
}
use sealvault.Wallet.Addresses.{fetch_or_create_for_eth_chain}
use sealvault.Wallet.Ids.{parse_id}
use sealvault.Wallet.Profiles.{profile_name_try_from, create_eth_profile}
use sealvault.Wallet.Sessions.{change_eth_chain, create_eth_session_if_not_exists}

pub record EthChangeDappChainArgs : Type 0 where
  pub profile_id : Text
  pub dapp_id : Text
  pub new_chain_id : ℕ

module _ ⦃sys : System⦄ where
  abbrev pub CoreApp : Type 0 → Type 0
  CoreApp A = Exec World CoreError A

  -- the conversion of errors by `?`
  abbrev pub as_core : {A : Type 0} → App A → CoreApp A
  as_core m w = let (r, v) = m w in (map_err to_core_error r, v)

  abbrev pub backup_as_core : {A : Type 0} → BackupApp A → CoreApp A
  backup_as_core m w = let (r, v) = m w in (map_err backup_to_core_error r, v)

  unfoldable pub on_background : Device → CoreApp (Unit {0})
  on_background device = do
    enabled ← as_core is_backup_enabled
    if enabled then (do backup_as_core (create_backup device); pure tt) else pure tt

  -- `AppCore::disable_backup`, as the backup code calls it
  unfoldable pub disable_for_device : Device → BackupApp (Unit {0})
  disable_for_device device w =
      let (r, v) = as_core (disable_backup device.device_id) w in
      (map_err core_to_backup_error r, v)

  -- `AppCore::enable_backup`: if the first backup fails, backups are disabled again.
  unfoldable pub enable_backup : Device → BackupApp (Unit {0})
  unfolding disable_for_device
  enable_backup device = do
    as_backup (set_up_or_rotate_backup device)
    λ w.
        let (r, v) = create_backup device w in
        elim r [ ok meta ↦ (ok tt, v) | err e ↦ (do disable_for_device device; raise e) v ]

  unfoldable pub active_profile_id : CoreApp Text
  active_profile_id = as_core (do connection; query fetch_active_profile_id)

  -- `AppCore::set_active_profile_id`
  unfoldable pub select_profile : Text → CoreApp (Unit {0})
  select_profile profile_id =
      as_core
        (do id ← lift (parse_id profile_id); connection; write (Settings.set_active_profile_id id))

  module _ ⦃eth : EthImpl⦄ where
    -- `AppCore::create_profile`
    unfoldable pub add_profile : Text → Text → CoreApp (Unit {0})
    add_profile name bundled_picture_name = as_core (do
      valid ← lift (profile_name_try_from name)
      transaction (do create_eth_profile valid bundled_picture_name; pure tt))

    unfoldable pub add_eth_chain : ℕ → Text → CoreApp (Unit {0})
    add_eth_chain chain_id address_id = as_core (do
      chain ← lift (try_from_u64 chain_id)
      id ← lift (parse_id address_id)
      transaction (fetch_or_create_for_eth_chain id chain)
      pure tt)

    unfoldable pub eth_change_dapp_chain : EthChangeDappChainArgs → CoreApp (Unit {0})
    eth_change_dapp_chain args = as_core (do
      chain ← lift (try_from_u64 args.new_chain_id)
      profile ← lift (parse_id args.profile_id)
      dapp ← lift (parse_id args.dapp_id)
      transaction (do
        session ←
            create_eth_session_if_not_exists
              (record { dapp_id = dapp; profile_id = profile; chain_id = chain })
        change_eth_chain session chain
        pure tt))
