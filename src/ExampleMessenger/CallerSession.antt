-- ===== src/ExampleMessenger/CallerSession.antt =====
-- abi-bindings/go/CrossChainApplications/ExampleMessenger/ExampleCrossChainMessenger/ExampleCrossChainMessenger.go:
-- the reading methods with the options of a session.
use teleporter.Base.{ℤ, Bool, Outcome}
use teleporter.Bindings.Types.{Address, Hash}
use teleporter.Text.{Text}
use teleporter.Contract.Bound.{BindLib}
use teleporter.ExampleMessenger.Binding.{ExampleCrossChainMessengerCallerSession}
use teleporter.ExampleMessenger.Caller

module _ (B : BindLib) where
  unfoldable pub get_current_message :
      ExampleCrossChainMessengerCallerSession B → Hash → Outcome (Address × Text)
  get_current_message session origin_blockchain_id =
      Caller.get_current_message B session.contract session.call_opts origin_blockchain_id

  unfoldable pub get_min_teleporter_version : ExampleCrossChainMessengerCallerSession B → Outcome ℤ
  get_min_teleporter_version session =
      Caller.get_min_teleporter_version B session.contract session.call_opts

  unfoldable pub is_teleporter_address_paused :
      ExampleCrossChainMessengerCallerSession B → Address → Outcome Bool
  is_teleporter_address_paused session teleporter_address =
      Caller.is_teleporter_address_paused B session.contract session.call_opts teleporter_address

  unfoldable pub owner : ExampleCrossChainMessengerCallerSession B → Outcome Address
  owner session = Caller.owner B session.contract session.call_opts

  unfoldable pub teleporter_registry : ExampleCrossChainMessengerCallerSession B → Outcome Address
  teleporter_registry session = Caller.teleporter_registry B session.contract session.call_opts
