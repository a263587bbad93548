-- ===== src/ExampleMessenger/Session.antt =====
-- abi-bindings/go/CrossChainApplications/ExampleMessenger/ExampleCrossChainMessenger/ExampleCrossChainMessenger.go:
-- the methods with the options of a session.
use teleporter.Base.{ℤ, Bool, Outcome}
use teleporter.Bindings.Types.{Address, Bytes, Hash}
use teleporter.Text.{Text}
use teleporter.Contract.Bound.{BindLib}
use teleporter.ExampleMessenger.Binding.{ExampleCrossChainMessengerSession}
use teleporter.ExampleMessenger.Caller
use teleporter.ExampleMessenger.Transactor

module _ (B : BindLib) where
  unfoldable pub get_current_message :
      ExampleCrossChainMessengerSession B → Hash → Outcome (Address × Text)
  get_current_message session origin_blockchain_id =
      Caller.get_current_message B session.contract.caller session.call_opts origin_blockchain_id

  unfoldable pub get_min_teleporter_version : ExampleCrossChainMessengerSession B → Outcome ℤ
  get_min_teleporter_version session =
      Caller.get_min_teleporter_version B session.contract.caller session.call_opts

  unfoldable pub is_teleporter_address_paused :
      ExampleCrossChainMessengerSession B → Address → Outcome Bool
  is_teleporter_address_paused session teleporter_address =
      Caller.is_teleporter_address_paused B session.contract.caller session.call_opts
        teleporter_address

  unfoldable pub owner : ExampleCrossChainMessengerSession B → Outcome Address
  owner session = Caller.owner B session.contract.caller session.call_opts

  unfoldable pub teleporter_registry : ExampleCrossChainMessengerSession B → Outcome Address
  teleporter_registry session =
      Caller.teleporter_registry B session.contract.caller session.call_opts

  unfoldable pub pause_teleporter_address :
      ExampleCrossChainMessengerSession B → Address → Outcome B.SignedTx
  pause_teleporter_address session teleporter_address =
      Transactor.pause_teleporter_address B session.contract.transactor session.transact_opts
        teleporter_address

  unfoldable pub receive_teleporter_message :
      ExampleCrossChainMessengerSession B → Hash → Address → Bytes → Outcome B.SignedTx
  receive_teleporter_message session origin_blockchain_id origin_sender_address message =
      Transactor.receive_teleporter_message B session.contract.transactor session.transact_opts
        origin_blockchain_id origin_sender_address message

  unfoldable pub renounce_ownership : ExampleCrossChainMessengerSession B → Outcome B.SignedTx
  renounce_ownership session =
      Transactor.renounce_ownership B session.contract.transactor session.transact_opts

  unfoldable pub send_message :
      ExampleCrossChainMessengerSession B
      → Hash
      → Address
      → Address
      → ℤ
      → ℤ
      → Text
      → Outcome B.SignedTx
  send_message session destination_blockchain_id destination_address fee_token_address fee_amount
        required_gas_limit message =
      Transactor.send_message B session.contract.transactor session.transact_opts
        destination_blockchain_id destination_address fee_token_address fee_amount
        required_gas_limit message

  unfoldable pub transfer_ownership :
      ExampleCrossChainMessengerSession B → Address → Outcome B.SignedTx
  transfer_ownership session new_owner =
      Transactor.transfer_ownership B session.contract.transactor session.transact_opts new_owner

  unfoldable pub unpause_teleporter_address :
      ExampleCrossChainMessengerSession B → Address → Outcome B.SignedTx
  unpause_teleporter_address session teleporter_address =
      Transactor.unpause_teleporter_address B session.contract.transactor session.transact_opts
        teleporter_address

  unfoldable pub update_min_teleporter_version :
      ExampleCrossChainMessengerSession B → ℤ → Outcome B.SignedTx
  update_min_teleporter_version session version =
      Transactor.update_min_teleporter_version B session.contract.transactor session.transact_opts
        version
