-- ===== src/Examples/TestnetRuns.antt =====
-- The testnet network at concrete data.
use teleporter.Base.{
  ◌==◌, ◌&&◌, ℕ, Bool, ◌+◌, ◌<◌, ◌≡◌, refl, ◌↔◌, [], ◌∷◌, List, ltb, if◌then◌else◌, text_eq, length,
  Option, none, some, arith, true,
}
use teleporter.Base.{pos, Outcome, ok, fail, new, GoError}
use teleporter.Text.{Text, codes}
use teleporter.Bindings.Types.{Log, TeleporterMessengerSendCrossChainMessage}
use teleporter.Suite.Logs.{get_event_from_logs, IsFirst}
use teleporter.Suite.Wait.{Receipt}
use teleporter.Testnet.{TestnetLib, SubnetInfo, TestNetwork}
use teleporter.Testnet.Environment.{
  initialize_subnet_info, new_test_network, strip_0x, funded_key_of,
}
use teleporter.Testnet.Environment.Laws.{IsNetwork, new_test_network_ok}
use teleporter.Testnet.Delivery.{
  wait_until_delivered, start_block, only_log, check_message_delivered, delivery_query,
  find_delivery, get_message_delivery_transaction_receipt,
}
use teleporter.Testnet.Delivery.Loop.{EndsAfter, wait_until_delivered_ends}
use teleporter.Testnet.Delivery.Query.{Mined, matching, deliveries_from, find_delivery_iff}
use teleporter.Testnet.Relay.{relay_message, sent_message_id, check_receipt}
use teleporter.Testnet.Relay.Laws.{IsFound, relay_message_ok}

abbrev delivery_log : ℕ → Log
delivery_log tx = record {
  address = 27;
  topics = 24 ∷ 17 ∷ 4 ∷ 9 ∷ [];
  log_data = [];
  tx_hash = tx;
}

-- The message 4 was delivered long ago, as in a fork, and again, beside other logs.
abbrev mined : List Mined
mined =
    (100, delivery_log 70)
    ∷ (990, record { address = 27; topics = 24 ∷ 17 ∷ 5 ∷ 9 ∷ []; log_data = []; tx_hash = 71 })
    ∷ (995, delivery_log 72)
    ∷ []

abbrev delivered_receipt : Receipt
delivered_receipt = record { status = 1; logs = []; block_hash = 5; block_number = 995 }

abbrev pub sent : Log → TeleporterMessengerSendCrossChainMessage
sent log = record {
  destination_blockchain_id = 17;
  message_id = pos 4;
  message = record {
    message_id = pos 4;
    sender_address = 1;
    destination_blockchain_id = 17;
    destination_address = 2;
    required_gas_limit = pos 100;
    allowed_relayer_addresses = [];
    receipts = [];
    message = [];
  };
  fee_info = record { fee_token_address = 0; amount = pos 0 };
  raw = log;
}

abbrev variable : Text → Text
variable name =
    if text_eq name (codes "user_private_key")
    then codes "0x56289e99c94b6912bfc12adc093c9b51124f0dc54ac7a766b2bc5ccf558d8027"
    else name

-- A testnet whose client says from the fourth question on that the message is delivered.
abbrev toy_testnet : TestnetLib
toy_testnet = record {
  Client = Unit {0};
  Messenger = Unit {0};
  Key = ℕ;
  ContractAbi = Unit {0};
  getenv = variable;
  id_from_string = λ text. ok (length text);
  dial = λ _. ok tt;
  chain_id = λ _. ok (pos 99);
  hex_to_address = λ text. length text;
  hex_to_ecdsa = λ text. ok (length text);
  new_teleporter_messenger = λ _ _. ok tt;
  message_received = λ _ n source _. ok (source == 17 && ltb 2 n);
  parse_send_cross_chain_message =
      λ _ log. if ltb log.address 10 then ok (sent log) else fail (new "event signature mismatch");
  get_abi = ok tt;
  event_id = λ _ name. length name;
  block_number = λ _. ok 1_000;
  filter_logs = λ _ query. ok (matching query mined);
  transaction_receipt = λ _ _. ok delivered_receipt;
}

abbrev subnet_of : ℕ → SubnetInfo toy_testnet
subnet_of prefix = record {
  subnet_id = prefix + 10;
  blockchain_id = prefix + 9;
  node_uris = [];
  rpc_client = tt;
  ws_client = tt;
  evm_chain_id = pos 99;
  teleporter_registry_address = prefix + 28;
  teleporter_messenger = tt;
}

abbrev network : TestNetwork toy_testnet
network = record {
  teleporter_contract_address = 27;
  subnets = subnet_of 8 ∷ subnet_of 8 ∷ subnet_of 8 ∷ [];
  funded_address = 12;
  funded_key = 64;
}

network_run : new_test_network toy_testnet ≡ ok network
unfolding new_test_network initialize_subnet_info funded_key_of strip_0x text_eq
network_run = refl

new_test_network_ok_example : IsNetwork toy_testnet network
new_test_network_ok_example = new_test_network_ok toy_testnet network network_run

find_delivery_iff_example :
    (find_delivery toy_testnet network 17 (subnet_of 8) (pos 4) ≡ ok delivered_receipt) ↔ (
      (log : Log) × (deliveries_from 1_000 27 24 17 4 mined ≡ log ∷ [])
      × (toy_testnet.transaction_receipt tt log.tx_hash ≡ ok delivered_receipt))
find_delivery_iff_example =
    find_delivery_iff toy_testnet network 17 (subnet_of 8) (pos 4) mined 1_000 tt (omega arith) refl
      refl (λ query. refl) delivered_receipt

-- The context is over in the tenth round.
abbrev expired : ℕ → Option GoError
expired n = if ltb n 9 then none else some (new "context deadline exceeded")

abbrev told : ℕ → Outcome Bool
told n = ok (ltb 2 n)

wait_until_delivered_ends_example :
    (j : ℕ) × (out : Outcome (Unit {0})) × (j < 10)
    × EndsAfter expired told j 0 out
    × (wait_until_delivered expired told 20 0 ≡ some out)
wait_until_delivered_ends_example =
    wait_until_delivered_ends expired told 9 20 (new "context deadline exceeded") refl (omega arith)

abbrev source_receipt : Receipt
source_receipt = record {
  status = 1;
  logs = delivery_log 60 ∷ record { address = 3; topics = []; log_data = []; tx_hash = 60 } ∷ [];
  block_hash = 1;
  block_number = 2;
}

relay_run :
    relay_message toy_testnet network expired 20 source_receipt (subnet_of 8) (subnet_of 9) true
    ≡ some (ok delivered_receipt)
unfolding relay_message sent_message_id check_receipt get_event_from_logs
    get_message_delivery_transaction_receipt wait_until_delivered check_message_delivered
    find_delivery delivery_query start_block only_log matching
relay_run = refl

relay_message_ok_example :
    (messenger asked : Unit {0}) × (event : TeleporterMessengerSendCrossChainMessage) × (m : ℕ)
    × (toy_testnet.new_teleporter_messenger 27 tt ≡ ok messenger)
    × IsFirst (toy_testnet.parse_send_cross_chain_message messenger) source_receipt.logs event
    × (toy_testnet.new_teleporter_messenger 27 tt ≡ ok asked)
    × (toy_testnet.message_received asked m 17 event.message.message_id ≡ ok true)
    × IsFound toy_testnet network expired 20 source_receipt
        (subnet_of 8)
        (subnet_of 9)
        true
        event.message.message_id
        delivered_receipt
    × (delivered_receipt.status ≡ 1)
relay_message_ok_example =
    relay_message_ok toy_testnet network expired 20 source_receipt (subnet_of 8) (subnet_of 9) true
      delivered_receipt relay_run
