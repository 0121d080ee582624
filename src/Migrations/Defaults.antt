-- ===== src/Migrations/Defaults.antt =====
-- The migration that adds the default dapps leaves the table of migrations to the loop.
use sealvault.Prelude.{◌≡◌, refl, arith, Text, List, [], ◌∷◌}
use sealvault.Ethereum.{EthImpl, Url}
use sealvault.System.{System, World}
use sealvault.Wallet.{Dapp}
use sealvault.Wallet.Dapps.{list_all_dapps}
use sealvault.Wallet.Frames.{
  migrations, create_if_not_exists-migrations, create_eth_key_and_address-migrations,
  create_eth_session-migrations,
}
use sealvault.Migrations.{migration_v1, add_dapp, add_dapps, default_dapps}
use sealvault.Migrations.Once.{Keeps}

module _ ⦃sys : System⦄ ⦃eth : EthImpl⦄ where
  add_dapp-migrations :
      (profile_id : Text) (url : Url) (w : World)
      → migrations (add_dapp profile_id url w).1 ≡ migrations w
  unfolding add_dapp
  add_dapp-migrations profile_id url w = grind (
    arith, create_if_not_exists-migrations, create_eth_key_and_address-migrations,
    create_eth_session-migrations,
  )

  add_dapps-migrations :
      (profile_id : Text) (urls : List Url) (w : World)
      → migrations (add_dapps profile_id urls w).1 ≡ migrations w
  unfolding add_dapps
  add_dapps-migrations profile_id [] w = refl
  add_dapps-migrations profile_id (url ∷ urls) w =
      grind (arith, add_dapp-migrations, add_dapps-migrations profile_id urls)

  default_dapps-migrations :
      (urls : List Url) (ds : List Dapp) (w : World)
      → migrations (default_dapps urls ds w).1 ≡ migrations w
  unfolding default_dapps
  default_dapps-migrations urls (d ∷ ds) w = refl
  default_dapps-migrations urls [] w = grind (arith, add_dapps-migrations)

  -- It satisfies what the loop relies on.
  pub migration_v1-Keeps : (urls : List Url) → Keeps (migration_v1 urls)
  unfolding migration_v1 list_all_dapps
  migration_v1-Keeps urls w = grind (arith, default_dapps-migrations)
