-- ===== src/ExampleMessenger/Caller.antt =====
-- abi-bindings/go/CrossChainApplications/ExampleMessenger/ExampleCrossChainMessenger/ExampleCrossChainMessenger.go:
-- the methods that read the contract.
use teleporter.Base.{ℤ, Bool, [], ◌∷◌, Outcome, ok, ◌>>=◌}
use teleporter.Bindings.Types.{Address, Hash}
use teleporter.Text.{Text}
use teleporter.Bindings.Abi.{identifier, address}
use teleporter.Contract.Bound.{BindLib, out_at}
use teleporter.ExampleMessenger.Binding.{ExampleCrossChainMessengerCaller}

module _ (B : BindLib) where
  unfoldable pub get_current_message :
      ExampleCrossChainMessengerCaller B → B.CallOpts → Hash → Outcome (Address × Text)
  get_current_message caller opts origin_blockchain_id = do
    out ← B.call caller.contract opts "getCurrentMessage" (identifier origin_blockchain_id ∷ [])
    value0 ← out_at out 0
    out0 ← B.to_address value0
    value1 ← out_at out 1
    out1 ← B.to_text value1
    ok (out0, out1)

  unfoldable pub get_min_teleporter_version :
      ExampleCrossChainMessengerCaller B → B.CallOpts → Outcome ℤ
  get_min_teleporter_version caller opts = do
    out ← B.call caller.contract opts "getMinTeleporterVersion" ([])
    value0 ← out_at out 0
    out0 ← B.to_big_int value0
    ok out0

  unfoldable pub is_teleporter_address_paused :
      ExampleCrossChainMessengerCaller B → B.CallOpts → Address → Outcome Bool
  is_teleporter_address_paused caller opts teleporter_address = do
    out ← B.call caller.contract opts "isTeleporterAddressPaused" (address teleporter_address ∷ [])
    value0 ← out_at out 0
    out0 ← B.to_bool value0
    ok out0

  unfoldable pub owner : ExampleCrossChainMessengerCaller B → B.CallOpts → Outcome Address
  owner caller opts = do
    out ← B.call caller.contract opts "owner" ([])
    value0 ← out_at out 0
    out0 ← B.to_address value0
    ok out0

  unfoldable pub teleporter_registry :
      ExampleCrossChainMessengerCaller B → B.CallOpts → Outcome Address
  teleporter_registry caller opts = do
    out ← B.call caller.contract opts "teleporterRegistry" ([])
    value0 ← out_at out 0
    out0 ← B.to_address value0
    ok out0
