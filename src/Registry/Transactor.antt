-- ===== src/Registry/Transactor.antt =====
-- abi-bindings/go/Teleporter/upgrades/TeleporterRegistry/TeleporterRegistry.go: the methods that send a transaction.
use teleporter.Base.{ℕ, [], ◌∷◌, Outcome}
use teleporter.Bindings.Abi.{uint32}
use teleporter.Contract.Bound.{BindLib}
use teleporter.Registry.Binding.{TeleporterRegistryTransactor}

module _ (B : BindLib) where
  unfoldable pub add_protocol_version :
      TeleporterRegistryTransactor B → B.TransactOpts → ℕ → Outcome B.SignedTx
  add_protocol_version transactor opts message_index =
      B.transact transactor.contract opts "addProtocolVersion" (uint32 message_index ∷ [])
