-- ===== src/Registry/TransactorSession.antt =====
-- abi-bindings/go/Teleporter/upgrades/TeleporterRegistry/TeleporterRegistry.go: the sending methods with the options of a session.
use teleporter.Base.{ℕ, Outcome}
use teleporter.Contract.Bound.{BindLib}
use teleporter.Registry.Binding.{TeleporterRegistryTransactorSession}
use teleporter.Registry.Transactor

module _ (B : BindLib) where
  unfoldable pub add_protocol_version :
      TeleporterRegistryTransactorSession B → ℕ → Outcome B.SignedTx
  add_protocol_version session message_index =
      Transactor.add_protocol_version B session.contract session.transact_opts message_index
