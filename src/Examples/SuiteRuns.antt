-- ===== src/Examples/SuiteRuns.antt =====
-- The suite's helpers at concrete data.
use teleporter.Base.{
  ℕ, zero, suc, ◌+◌, ◌^◌, ◌≤◌, ◌<◌, ◌≡◌, refl, ◌↔◌, [], ◌∷◌, ◌++◌, none, some, arith,
}
use teleporter.Base.{pos, pos_part, Outcome, ok, fail, new, wrap, ltb, if◌then◌else◌}
use teleporter.Text.{codes}
use teleporter.Text.Decimal.{format_uint}
use teleporter.Bindings.Types.{Log}
use teleporter.Bindings.Packing.{pack_receive_cross_chain_message}
use teleporter.Utils.Gas.{calculate_receive_message_gas_limit}
use teleporter.Suite.Uri.{get_uri_host_and_port}
use teleporter.Suite.Uri.Laws.{Scheme, scheme, get_uri_host_and_port_lem}
use teleporter.Suite.Logs.{get_event_from_logs, IsFirst, get_event_from_logs_iff}
use teleporter.Suite.Wait.{Receipt, wait_for_transaction, is_deadline_exceeded, deadline_exceeded}
use teleporter.Suite.Wait.Laws.{GoesOn, wait_for_transaction_ends, wait_for_transaction_forever}
use teleporter.Suite.Transactions.{
  SubnetTestInfo, DynamicFeeTx, SignedMessage, create_receive_cross_chain_message_transaction,
  receive_cross_chain_message_tx, calculate_tx_params, sign_transaction,
}
use teleporter.Suite.Transactions.Laws.{HasFees, create_receive_cross_chain_message_transaction_ok}
use teleporter.Examples.Libraries.{toy_chain, teleporter_log, other_log}

get_uri_host_and_port_lem_example :
    get_uri_host_and_port (scheme Scheme.https ++ (codes "10.0.0.1" ++ (b':' ∷ format_uint 9650)))
    ≡ ok (codes "10.0.0.1", 9650)
get_uri_host_and_port_lem_example =
    get_uri_host_and_port_lem Scheme.https (codes "10.0.0.1") 9650 (omega arith) (omega arith)

abbrev fee_of : Log → Outcome ℕ
fee_of log = if ltb log.address 0x80 then ok 5 else fail (new "event signature mismatch")

get_event_from_logs_iff_example :
    (get_event_from_logs fee_of (other_log ∷ teleporter_log ∷ []) ≡ ok 5)
    ↔ IsFirst fee_of (other_log ∷ teleporter_log ∷ []) 5
get_event_from_logs_iff_example = get_event_from_logs_iff fee_of (other_log ∷ teleporter_log ∷ []) 5

abbrev receipt : Receipt
receipt = record { status = 1; logs = []; block_hash = 1; block_number = 2 }

-- Not found at first, then there.
abbrev second_answer : ℕ → Outcome Receipt
second_answer zero = fail (new "not found")
second_answer (suc n) = ok receipt

wait_for_transaction_ends_example : wait_for_transaction second_answer 3 0 ≡ some (ok receipt)
wait_for_transaction_ends_example =
    wait_for_transaction_ends second_answer 1 3 goes_on (λ h. h) (omega arith)
  where
    goes_on : (i : ℕ) → i < 1 → GoesOn (second_answer i)
    goes_on zero h = unfold is_deadline_exceeded in refl
    goes_on (suc i) h = absurd (omega arith)

-- The client says which request missed the deadline.
abbrev late : ℕ → Outcome Receipt
late n = fail (wrap "Post http://node" deadline_exceeded)

wait_for_transaction_forever_example : wait_for_transaction late 1_000 0 ≡ none
wait_for_transaction_forever_example =
    wait_for_transaction_forever late (λ i. (deadline_exceeded, "Post http://node", refl)) 1_000

abbrev subnet : SubnetTestInfo toy_chain
subnet = record {
  subnet_id = 1;
  blockchain_id = 2;
  node_uris = [];
  rpc_client = tt;
  evm_chain_id = pos 99;
  teleporter_registry_address = 3;
}

signed_run :
    create_receive_cross_chain_message_transaction toy_chain (1 ∷ []) (pos 100_000) 0x70 7 subnet
    ≡ ok 2_205_007
unfolding create_receive_cross_chain_message_transaction receive_cross_chain_message_tx
    sign_transaction calculate_receive_message_gas_limit pack_receive_cross_chain_message
    calculate_tx_params
signed_run = refl

create_receive_cross_chain_message_transaction_ok_example :
    (tx : DynamicFeeTx) × (message : SignedMessage) × (toy_chain.sign_tx tx (pos 99) 7
      ≡ ok 2_205_007)
    × (toy_chain.parse_message (1 ∷ []) ≡ ok message)
    × (tx.predicate ≡ some (5, message.bytes))
    × (tx.to ≡ 0x70)
    × (pack_receive_cross_chain_message toy_chain.abi 0 7 ≡ ok tx.tx_data)
    × HasFees toy_chain subnet 7 tx
    × (tx.gas < 2 ^ 64)
    × (pos_part (pos 100_000) + 2_100_000 ≤ tx.gas)
create_receive_cross_chain_message_transaction_ok_example =
    create_receive_cross_chain_message_transaction_ok toy_chain (new "overflow") (λ a b. refl)
      (1 ∷ []) (pos 100_000) 0x70 7 subnet signed_run
