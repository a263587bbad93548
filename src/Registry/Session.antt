-- ===== src/Registry/Session.antt =====
-- abi-bindings/go/Teleporter/upgrades/TeleporterRegistry/TeleporterRegistry.go: the methods with the options of a session.
use teleporter.Base.{ℕ, ℤ, Outcome}
use teleporter.Bindings.Types.{Address, Hash}
use teleporter.Contract.Bound.{BindLib}
use teleporter.Registry.Binding.{TeleporterRegistrySession}
use teleporter.Registry.Caller
use teleporter.Registry.Transactor

module _ (B : BindLib) where
  unfoldable pub max_version_increment : TeleporterRegistrySession B → Outcome ℤ
  max_version_increment session =
      Caller.max_version_increment B session.contract.caller session.call_opts

  unfoldable pub valid_atorssourceaddress : TeleporterRegistrySession B → Outcome Address
  valid_atorssourceaddress session =
      Caller.valid_atorssourceaddress B session.contract.caller session.call_opts

  unfoldable pub warp_messenger : TeleporterRegistrySession B → Outcome Address
  warp_messenger session = Caller.warp_messenger B session.contract.caller session.call_opts

  unfoldable pub blockchain_id : TeleporterRegistrySession B → Outcome Hash
  blockchain_id session = Caller.blockchain_id B session.contract.caller session.call_opts

  unfoldable pub get_address_from_version : TeleporterRegistrySession B → ℤ → Outcome Address
  get_address_from_version session version =
      Caller.get_address_from_version B session.contract.caller session.call_opts version

  unfoldable pub get_latest_teleporter : TeleporterRegistrySession B → Outcome Address
  get_latest_teleporter session =
      Caller.get_latest_teleporter B session.contract.caller session.call_opts

  unfoldable pub get_teleporter_from_version : TeleporterRegistrySession B → ℤ → Outcome Address
  get_teleporter_from_version session version =
      Caller.get_teleporter_from_version B session.contract.caller session.call_opts version

  unfoldable pub get_version_from_address : TeleporterRegistrySession B → Address → Outcome ℤ
  get_version_from_address session protocol_address =
      Caller.get_version_from_address B session.contract.caller session.call_opts protocol_address

  unfoldable pub latest_version : TeleporterRegistrySession B → Outcome ℤ
  latest_version session = Caller.latest_version B session.contract.caller session.call_opts

  unfoldable pub add_protocol_version : TeleporterRegistrySession B → ℕ → Outcome B.SignedTx
  add_protocol_version session message_index =
      Transactor.add_protocol_version B session.contract.transactor session.transact_opts
        message_index
