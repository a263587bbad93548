-- ===== src/Testnet/Delivery.antt =====
-- `checkMessageDelivered` and `getMessageDeliveryTransactionReceipt` of tests/testnet/network.go.
pub mod Loop
pub mod Query
use teleporter.Base.{
  ℕ, zero, suc, ◌+◌, ◌-◌, ◌%◌, ◌^◌, Bool, true, false, List, [], ◌∷◌, Option, none, some, ltb,
  if◌then◌else◌,
}
use teleporter.Base.{ℤ, pos_part, neg_part, to_int64, Outcome, ok, fail, panic, GoError, new, ◌>>=◌}
use teleporter.Text.{Text, codes}
use teleporter.Bindings.Types.{Address, Hash, Log}
use teleporter.Suite.Wait.{Receipt}
use teleporter.Testnet.{TestnetLib, SubnetInfo, TestNetwork, FilterQuery}

abbrev pub receive_cross_chain_message_event_name : Text
receive_cross_chain_message_event_name = codes "ReceiveCrossChainMessage"

abbrev pub receive_cross_chain_message_look_back_blocks : ℕ
receive_cross_chain_message_look_back_blocks = 500

-- The loop. In round n `ctx.Err()` is `expired n` and the check answers `answer n`, after the bound
-- of rounds it is still running.
unfoldable pub wait_until_delivered :
    (ℕ → Option GoError) → (ℕ → Outcome Bool) → ℕ → ℕ → Option (Outcome (Unit {0}))
wait_until_delivered expired answer zero n = none
wait_until_delivered expired answer (suc rounds) n =
    let rest = wait_until_delivered expired answer rounds (n + 1) in
    elim (expired n) [
      | some e ↦ some (fail e)
      | none ↦ elim (answer n) [
        | ok delivered ↦ if delivered then some (ok tt) else rest
        | fail e ↦ rest
        | panic e ↦ some (panic e)
      ]
    ]

unfoldable pub start_block : ℕ → ℕ
start_block current_block_height =
    if ltb receive_cross_chain_message_look_back_blocks current_block_height
    then current_block_height - receive_cross_chain_message_look_back_blocks
    else 0

-- `common.BigToHash`: the low 32 bytes of the absolute value.
abbrev pub big_to_hash : ℤ → Hash
big_to_hash z = (pos_part z + neg_part z) % 2 ^ 256

-- The tests of `len(logs)`, and `logs[0]`.
unfoldable pub only_log : List Log → Outcome Log
only_log [] = fail (new "Failed to find ReceiveCrossChainMessage log for relayed message")
only_log (log ∷ []) = ok log
only_log (log ∷ other ∷ logs) =
    fail (new "Found multiple ReceiveCrossChainMessage logs for relayed message")

module _ (T : TestnetLib) where
  -- `checkMessageDelivered`, called in round n.
  unfoldable pub check_message_delivered :
      TestNetwork T → Hash → SubnetInfo T → ℤ → ℕ → Outcome Bool
  check_message_delivered network source_blockchain_id destination message_id n = do
    messenger ←
        T.new_teleporter_messenger network.teleporter_contract_address destination.rpc_client
    T.message_received messenger n source_blockchain_id message_id

  -- The query for the log of the delivery.
  unfoldable pub delivery_query : T.ContractAbi → Address → Hash → ℤ → ℕ → FilterQuery
  delivery_query abi contract_address source_blockchain_id message_id current_block_height =
      record {
        from_block = to_int64 (start_block current_block_height);
        addresses = contract_address ∷ [];
        topics =
            (T.event_id abi receive_cross_chain_message_event_name ∷ [])
            ∷ (source_blockchain_id ∷ [])
            ∷ (big_to_hash message_id ∷ [])
            ∷ [];
      }

  -- All behind the loop.
  unfoldable pub find_delivery : TestNetwork T → Hash → SubnetInfo T → ℤ → Outcome Receipt
  find_delivery network source_blockchain_id destination message_id = do
    current_block_height ← T.block_number destination.rpc_client
    abi ← T.get_abi
    logs ← T.filter_logs destination.rpc_client (
        delivery_query abi network.teleporter_contract_address source_blockchain_id message_id
          current_block_height)
    log ← only_log logs
    T.transaction_receipt destination.rpc_client log.tx_hash

  unfoldable pub get_message_delivery_transaction_receipt :
      TestNetwork T → (ℕ → Option GoError) → ℕ → Hash → SubnetInfo T → ℤ → Option (Outcome Receipt)
  get_message_delivery_transaction_receipt network expired rounds source_blockchain_id destination
        message_id =
      elim (wait_until_delivered expired
        (check_message_delivered network source_blockchain_id destination message_id) rounds 0) [
          | none ↦ none
          | some waited ↦
              some
                (waited >>= λ _. find_delivery network source_blockchain_id destination message_id)
        ]
