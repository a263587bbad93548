-- ===== src/Examples/LocalRuns.antt =====
-- The local network with three subnets and a runner that knows every node.
use teleporter.Base.{length}
use teleporter.Base.{
  ℕ, ◌+◌, ◌*◌, ◌≡◌, ◌≢◌, refl, List, [], ◌∷◌, ◌++◌, Option, none, some, arith, ◌==◌, if◌then◌else◌,
}
use teleporter.Base.{pos, ok}
use teleporter.Text.{Text, codes}
use teleporter.Bindings.Types.{Hash}
use teleporter.Bindings.Types.{Log}
use teleporter.Suite.Wait.{Receipt}
use teleporter.Local.Warp.{
  WarpLib, one_log, unsigned_warp_message_id, signed_by_validators, then_sign,
  construct_signed_warp_message_bytes, construct_signed_warp_message_bytes_ok,
}
use teleporter.Local.{LocalLib, LocalSubnetInfo, LocalNetwork}
use teleporter.Local.Values.{
  assign, info_uri, uris_of, first_uri, present, old_clients, updated, set_subnet_values, set_all,
  set_all_subnet_values, add_subnet_validators,
}
use teleporter.Local.Values.Laws.{HasValues, contracts, add_subnet_validators_ok}
use teleporter.Local.BlockWait.{
  wait_for_height, and_then, wait_for_node, wait_for_all_validators_to_accept_block, AllAccepted,
  wait_for_all_validators_to_accept_block-AllAccepted, wait_for_all_validators_to_accept_block_ends,
}

-- A node is at its URI; a chain grows by three blocks from one question to the next.
abbrev pub toy_local : LocalLib
toy_local = record {
  Client = ℕ;
  Messenger = Unit {0};
  get_subnet = λ id. some (id + 100);
  get_subnets = 1 ∷ 2 ∷ 3 ∷ [];
  id_string = λ id. [];
  status = ok (λ name. some name);
  request_subnet_validators = λ _ _. ok tt;
  dial = λ uri. ok 7;
  chain_id = λ _. ok (pos 99);
  block_number = λ _ n. ok (n * 3);
}

abbrev before : LocalNetwork toy_local
before = record {
  subnet_a_id = 1;
  subnet_b_id = 2;
  subnet_c_id = 3;
  subnets_info = λ id.
      if id == 1
      then some (record {
        subnet_id = 1;
        blockchain_id = 101;
        node_uris = codes "a" ∷ [];
        ws_client = 5;
        rpc_client = 6;
        evm_chain_id = pos 99;
        teleporter_registry_address = some 40;
        teleporter_messenger = some tt;
      })
      else none;
  subnet_node_names = λ id. ((65 + id) ∷ []) ∷ [];
  closed = [];
}

abbrev pub info_of :
    Hash → List Text → Option (LocalSubnetInfo toy_local) → LocalSubnetInfo toy_local
info_of id names none = record {
  subnet_id = id;
  blockchain_id = id + 100;
  node_uris = names;
  ws_client = 7;
  rpc_client = 7;
  evm_chain_id = pos 99;
  teleporter_registry_address = none;
  teleporter_messenger = none;
}
info_of id names (some info) = record {
  subnet_id = id;
  blockchain_id = id + 100;
  node_uris = names;
  ws_client = 7;
  rpc_client = 7;
  evm_chain_id = pos 99;
  teleporter_registry_address = info.teleporter_registry_address;
  teleporter_messenger = info.teleporter_messenger;
}

abbrev names_after : Hash → List Text
names_after k =
    if k == 2 then before.subnet_node_names 2 ++ (codes "new" ∷ []) else before.subnet_node_names k

abbrev set_at :
    Hash → (Hash → Option (LocalSubnetInfo toy_local)) → Hash → Option (LocalSubnetInfo toy_local)
set_at id m k = if k == id then some (info_of id (names_after id) (m id)) else m k

abbrev after : LocalNetwork toy_local
after = record {
  subnet_a_id = 1;
  subnet_b_id = 2;
  subnet_c_id = 3;
  subnets_info = set_at 3 (set_at 2 (set_at 1 before.subnets_info));
  subnet_node_names = names_after;
  closed = 5 ∷ 6 ∷ [];
}

added : add_subnet_validators toy_local 2 (codes "new" ∷ []) before ≡ ok after
unfolding add_subnet_validators set_all_subnet_values set_all set_subnet_values assign info_uri
    uris_of first_uri present old_clients updated
added = refl

add_subnet_validators_ok_example :
    (toy_local.request_subnet_validators 2 (codes "new" ∷ []) ≡ ok tt)
    × (after.subnet_node_names 2 ≡ before.subnet_node_names 2 ++ (codes "new" ∷ []))
    × ((k : Hash) → k ≢ 2 → after.subnet_node_names k ≡ before.subnet_node_names k)
    × HasValues toy_local after 1
    × HasValues toy_local after 2
    × HasValues toy_local after 3
    × ((k : Hash)
        → contracts toy_local (after.subnets_info k) ≡ contracts toy_local (before.subnets_info k))
add_subnet_validators_ok_example =
    add_subnet_validators_ok toy_local 2 1 2 3 (codes "new" ∷ []) before after refl added

-- In the third round the chain is at block 6.
abbrev accepted : AllAccepted toy_local 101 5 10 (codes "a" ∷ codes "b" ∷ [])
accepted = (
  (7, 2, 6, refl, omega arith, refl, omega arith),
  ((7, 3, 9, refl, omega arith, refl, omega arith), tt),
)

wait_for_all_validators_to_accept_block_ends_example :
    wait_for_all_validators_to_accept_block toy_local 101 5 (codes "a" ∷ codes "b" ∷ []) 10
    ≡ some (ok tt)
wait_for_all_validators_to_accept_block_ends_example =
    wait_for_all_validators_to_accept_block_ends toy_local 101 5 (λ client i. (i * 3, refl))
      (codes "a" ∷ codes "b" ∷ []) 10 accepted

waited :
    wait_for_all_validators_to_accept_block toy_local 101 5 (codes "a" ∷ codes "b" ∷ []) 10
    ≡ some (ok tt)
unfolding wait_for_all_validators_to_accept_block wait_for_node wait_for_height and_then
waited = refl

wait_for_all_validators_to_accept_block-AllAccepted_example :
    AllAccepted toy_local 101 5 10 (codes "a" ∷ codes "b" ∷ [])
wait_for_all_validators_to_accept_block-AllAccepted_example =
    wait_for_all_validators_to_accept_block-AllAccepted toy_local 101 5 (codes "a" ∷ codes "b" ∷ [])
      10 tt waited

abbrev warp_log : Log
warp_log = record { address = 5; topics = []; log_data = 9 ∷ []; tx_hash = 1 }

abbrev pub toy_warp : WarpLib toy_local
toy_warp = record {
  WarpClient = Unit {0};
  filter_warp_logs = λ _ _. ok (warp_log ∷ []);
  unpack_message_id = λ log_data. ok (length log_data);
  new_client = λ _ _. ok tt;
  get_message_aggregate_signature = λ _ id quorum. ok (id ∷ quorum ∷ []);
  warp_quorum_denominator = 100;
}

abbrev source_receipt : Receipt
source_receipt = record { status = 1; logs = []; block_hash = 3; block_number = 5 }

abbrev pub source : LocalSubnetInfo toy_local
source = info_of 1 (codes "a" ∷ []) none

signed_run :
    construct_signed_warp_message_bytes toy_local toy_warp source_receipt source 10
    ≡ some (ok (1 ∷ 100 ∷ []))
unfolding construct_signed_warp_message_bytes unsigned_warp_message_id one_log then_sign
    signed_by_validators first_uri wait_for_all_validators_to_accept_block wait_for_node
    wait_for_height and_then
signed_run = refl

construct_signed_warp_message_bytes_ok_example :
    (log : Log) × (id : Hash) × (uri : Text) × (client : Unit {0}) × (toy_warp.filter_warp_logs
        source.rpc_client 3
      ≡ ok (log ∷ []))
    × (toy_warp.unpack_message_id log.log_data ≡ ok id)
    × AllAccepted toy_local 101 5 10 (codes "a" ∷ [])
    × (first_uri (codes "a" ∷ []) ≡ ok uri)
    × (toy_warp.new_client uri [] ≡ ok client)
    × (toy_warp.get_message_aggregate_signature client id 100 ≡ ok (1 ∷ 100 ∷ []))
construct_signed_warp_message_bytes_ok_example =
    construct_signed_warp_message_bytes_ok toy_local toy_warp source_receipt source 10
      (1 ∷ 100 ∷ []) signed_run
