-- ===== src/Registry/CallerSession.antt =====
-- abi-bindings/go/Teleporter/upgrades/TeleporterRegistry/TeleporterRegistry.go: the reading methods with the options of a session.
use teleporter.Base.{ℤ, Outcome}
use teleporter.Bindings.Types.{Address, Hash}
use teleporter.Contract.Bound.{BindLib}
use teleporter.Registry.Binding.{TeleporterRegistryCallerSession}
use teleporter.Registry.Caller

module _ (B : BindLib) where
  unfoldable pub max_version_increment : TeleporterRegistryCallerSession B → Outcome ℤ
  max_version_increment session = Caller.max_version_increment B session.contract session.call_opts

  unfoldable pub valid_atorssourceaddress : TeleporterRegistryCallerSession B → Outcome Address
  valid_atorssourceaddress session =
      Caller.valid_atorssourceaddress B session.contract session.call_opts

  unfoldable pub warp_messenger : TeleporterRegistryCallerSession B → Outcome Address
  warp_messenger session = Caller.warp_messenger B session.contract session.call_opts

  unfoldable pub blockchain_id : TeleporterRegistryCallerSession B → Outcome Hash
  blockchain_id session = Caller.blockchain_id B session.contract session.call_opts

  unfoldable pub get_address_from_version : TeleporterRegistryCallerSession B → ℤ → Outcome Address
  get_address_from_version session version =
      Caller.get_address_from_version B session.contract session.call_opts version

  unfoldable pub get_latest_teleporter : TeleporterRegistryCallerSession B → Outcome Address
  get_latest_teleporter session = Caller.get_latest_teleporter B session.contract session.call_opts

  unfoldable pub get_teleporter_from_version :
      TeleporterRegistryCallerSession B → ℤ → Outcome Address
  get_teleporter_from_version session version =
      Caller.get_teleporter_from_version B session.contract session.call_opts version

  unfoldable pub get_version_from_address : TeleporterRegistryCallerSession B → Address → Outcome ℤ
  get_version_from_address session protocol_address =
      Caller.get_version_from_address B session.contract session.call_opts protocol_address

  unfoldable pub latest_version : TeleporterRegistryCallerSession B → Outcome ℤ
  latest_version session = Caller.latest_version B session.contract session.call_opts
