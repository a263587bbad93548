-- ===== src/Local/Relay.antt =====
-- `RelayMessage` of tests/local/network.go: the helpers for signatures, transactions and acceptance, composed.
pub mod Steps
pub mod Laws
use teleporter.Base.{ℕ, ◌==◌, Bool, true, false, Option, none, some, if◌then◌else◌}
use teleporter.Base.{Outcome, ok, fail, panic, ◌>>=◌, ◌>>◌, or_panic, expect}
use teleporter.Bindings.Types.{
  Bytes, Address, Log, TeleporterMessengerSendCrossChainMessage,
  TeleporterMessengerReceiveCrossChainMessage,
}
use teleporter.Suite.Acceptance.{
  AcceptLib, AcceptingSubnet, send_transaction_and_wait_for_acceptance,
}
use teleporter.Suite.Logs.{get_event_from_logs}
use teleporter.Suite.Transactions.{
  ChainLib, SubnetTestInfo, create_receive_cross_chain_message_transaction,
}
use teleporter.Suite.Wait.{Receipt}
use teleporter.Local.{LocalLib, LocalSubnetInfo}
use teleporter.Local.Warp.{WarpLib, construct_signed_warp_message_bytes}

-- One value of the program has a type in each parameter that reads it: the functions between them, and the parser
-- that only this method calls. A pointer that may be nil, and an address that may not be set, are Option in LocalLib.
pub record RelayLib : Type 1 where
  pub local : LocalLib
  pub warp : WarpLib local
  pub chain : ChainLib
  pub accept : AcceptLib
  pub chain_client : local.Client → chain.Client
  pub accept_client : local.Client → accept.Client
  pub accept_messenger : Option local.Messenger → accept.Messenger
  pub accept_tx : chain.SignedTx → accept.SignedTx
  pub parse_receive_cross_chain_message :
      accept.Messenger → Log → Outcome TeleporterMessengerReceiveCrossChainMessage

-- The address that is not set is the zero value of its type.
unfoldable pub address_or_zero : Option Address → Address
address_or_zero none = 0
address_or_zero (some a) = a

module _ (R : RelayLib) where
  open R use {local, warp, chain, accept}

  -- The subnet as the transaction helpers, and as the acceptance helpers, read it.
  unfoldable pub chain_subnet : LocalSubnetInfo local → SubnetTestInfo chain
  chain_subnet s = record {
    subnet_id = s.subnet_id;
    blockchain_id = s.blockchain_id;
    node_uris = s.node_uris;
    rpc_client = R.chain_client s.rpc_client;
    evm_chain_id = s.evm_chain_id;
    teleporter_registry_address = address_or_zero s.teleporter_registry_address;
  }

  unfoldable pub accepting_subnet : LocalSubnetInfo local → AcceptingSubnet accept
  accepting_subnet s = record {
    blockchain_id = s.blockchain_id;
    rpc_client = R.accept_client s.rpc_client;
    evm_chain_id = s.evm_chain_id;
    teleporter_registry_address = address_or_zero s.teleporter_registry_address;
    teleporter_messenger = R.accept_messenger s.teleporter_messenger;
  }

  -- What `RelayMessage` reads of the network: `n.teleporterContractAddress` and `n.globalFundedKey`.
  module _ (teleporter_contract_address : Address) (global_funded_key : chain.Key)
      (source_receipt : Receipt) (source destination : LocalSubnetInfo local) where
    unfoldable pub sent_event : Outcome TeleporterMessengerSendCrossChainMessage
    sent_event = or_panic "Expect(err)" (
        get_event_from_logs
          (accept.parse_send_cross_chain_message (R.accept_messenger source.teleporter_messenger))
          source_receipt.logs)

    -- The assertions behind the transaction: the event that the destination has emitted names the source.
    unfoldable pub confirmed :
        Bool → Receipt × accept.World → Outcome (Option Receipt × accept.World)
    confirmed false mined = ok (none, mined.1)
    confirmed true mined = do
      receive_event ← or_panic "Expect(err)" (
          get_event_from_logs
            (R.parse_receive_cross_chain_message
              (R.accept_messenger destination.teleporter_messenger))
            mined.0.logs)
      expect (receive_event.origin_blockchain_id == source.blockchain_id)
          "Expect(receiveEvent.OriginBlockchainID)"
      ok (some mined.0, mined.1)

    -- The transaction with the signed bytes, sent and waited for.
    unfoldable pub deliver :
        TeleporterMessengerSendCrossChainMessage
        → Bool
        → accept.World
        → Bytes
        → Outcome (Option Receipt × accept.World)
    deliver send_event expect_success w signed_warp_message_bytes = do
      signed_tx ←
          create_receive_cross_chain_message_transaction chain signed_warp_message_bytes
            send_event.message.required_gas_limit teleporter_contract_address global_funded_key
            (chain_subnet destination)
      mined ←
          send_transaction_and_wait_for_acceptance accept (accepting_subnet destination)
            (R.accept_tx signed_tx) expect_success w
      confirmed expect_success mined

    unfoldable pub then_deliver :
        TeleporterMessengerSendCrossChainMessage
        → Bool
        → accept.World
        → Option (Outcome Bytes)
        → Option (Outcome (Option Receipt × accept.World))
    then_deliver send_event expect_success w none = none
    then_deliver send_event expect_success w (some signed) =
        some (signed >>= deliver send_event expect_success w)

    -- `RelayMessage`, on a bound of the rounds with each validator.
    unfoldable pub relay_message :
        Bool → ℕ → accept.World → Option (Outcome (Option Receipt × accept.World))
    relay_message expect_success rounds w = elim sent_event [
      | fail e ↦ some (fail e)
      | panic e ↦ some (panic e)
      | ok send_event ↦
          then_deliver send_event expect_success w
            (construct_signed_warp_message_bytes local warp source_receipt source rounds)
    ]
