-- ===== src/Examples/RelayRuns.antt =====
-- The relaying of the local network at concrete data.
use teleporter.Base.{◌≡◌, refl, true, [], ◌∷◌, none, some, pos, new, ok}
use teleporter.Text.{codes}
use teleporter.Suite.Logs.{get_event_from_logs}
use teleporter.Suite.Wait.{Receipt}
use teleporter.Suite.Acceptance.{send_transaction_and_wait_for_acceptance}
use teleporter.Suite.Transactions.{
  create_receive_cross_chain_message_transaction, receive_cross_chain_message_tx,
  calculate_tx_params, sign_transaction,
}
use teleporter.Utils.Gas.{calculate_receive_message_gas_limit}
use teleporter.Bindings.Packing.{pack_receive_cross_chain_message}
use teleporter.Local.Values.{first_uri}
use teleporter.Local.BlockWait.{
  wait_for_all_validators_to_accept_block, and_then, wait_for_node, wait_for_height,
}
use teleporter.Local.Warp.{
  construct_signed_warp_message_bytes, unsigned_warp_message_id, one_log, then_sign,
  signed_by_validators,
}
use teleporter.Local.{LocalSubnetInfo}
use teleporter.Local.Relay.{
  RelayLib, chain_subnet, accepting_subnet, sent_event, confirmed, deliver, then_deliver,
  relay_message,
}
use teleporter.Local.Relay.Steps.{Returned}
use teleporter.Local.Relay.Laws.{Relayed, relay_message_confirmed}
use teleporter.Examples.Libraries.{toy_chain, sample}
use teleporter.Examples.LocalRuns.{toy_local, toy_warp, info_of, source}
use teleporter.Examples.AcceptanceRuns.{toy_accept, receipt_of, log_of}

abbrev pub toy_relay : RelayLib
toy_relay = record {
  local = toy_local;
  warp = toy_warp;
  chain = toy_chain;
  accept = toy_accept;
  chain_client = λ _. tt;
  accept_client = λ _. tt;
  accept_messenger = λ _. tt;
  accept_tx = λ _. 4;
  parse_receive_cross_chain_message = λ _ log. ok (record {
    origin_blockchain_id = 101;
    message_id = pos 4;
    deliverer = 7;
    reward_redeemer = 7;
    message = sample;
    raw = log;
  });
}

abbrev sent_receipt : Receipt
sent_receipt = record { status = 1; logs = log_of 3 ∷ []; block_hash = 3; block_number = 5 }

abbrev destination : LocalSubnetInfo toy_local
destination = info_of 2 (codes "b" ∷ []) none

relayed_run :
    relay_message toy_relay 0x70 7 sent_receipt source destination true 10 (0, 0)
    ≡ some (ok (some (receipt_of 4), (0, 0)))
unfolding relay_message then_deliver deliver confirmed sent_event chain_subnet accepting_subnet
    get_event_from_logs send_transaction_and_wait_for_acceptance
    create_receive_cross_chain_message_transaction construct_signed_warp_message_bytes
    unsigned_warp_message_id one_log then_sign wait_for_all_validators_to_accept_block and_then
    wait_for_node wait_for_height signed_by_validators first_uri receive_cross_chain_message_tx
    calculate_receive_message_gas_limit pack_receive_cross_chain_message calculate_tx_params
    sign_transaction
relayed_run = refl

relay_message_confirmed_example :
    (receipt : Receipt) × Relayed toy_relay 0x70 7 sent_receipt source destination 10
      (0, 0)
      receipt
      (0, 0)
    × (receipt.status ≡ 1)
    × Returned toy_relay 0x70 7 sent_receipt source destination true (some (receipt_of 4)) receipt
relay_message_confirmed_example =
    relay_message_confirmed toy_relay 0x70 7 sent_receipt source destination (new "overflow")
      (λ a b. refl) true 10 (0, 0) relayed_run
