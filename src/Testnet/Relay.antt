-- ===== src/Testnet/Relay.antt =====
-- `RelayMessage` of tests/testnet/network.go, which waits for a relayer that runs elsewhere.
pub mod Laws
use teleporter.Base.{ℕ, ◌==◌, Bool, Option, none, some}
use teleporter.Base.{ℤ, Outcome, ok, fail, panic, GoError, ◌>>=◌, ◌>>◌, or_panic, expect}
use teleporter.Suite.Logs.{get_event_from_logs}
use teleporter.Suite.Wait.{Receipt, receipt_status_successful}
use teleporter.Testnet.{TestnetLib, SubnetInfo, TestNetwork}
use teleporter.Testnet.Delivery.{get_message_delivery_transaction_receipt}

-- The assertions on the receipt. A client answers with a receipt or with an error, so the test for nil holds.
unfoldable pub check_receipt : Outcome Receipt → Outcome Receipt
check_receipt delivered = do
  receipt ← or_panic "Expect(err)" delivered
  expect (receipt.status == receipt_status_successful) "Expect(receipt.Status)"
  ok receipt

module _ (T : TestnetLib) where
  -- The identifier of the message that the source transaction sent.
  unfoldable pub sent_message_id : TestNetwork T → Receipt → SubnetInfo T → Outcome ℤ
  sent_message_id network source_receipt source = do
    messenger ←
        or_panic "Expect(err)"
          (T.new_teleporter_messenger network.teleporter_contract_address source.rpc_client)
    send_event ←
        or_panic "Expect(err)"
          (get_event_from_logs (T.parse_send_cross_chain_message messenger) source_receipt.logs)
    ok send_event.message.message_id

  -- `RelayMessage`; the code does not read `expectSuccess`.
  unfoldable pub relay_message :
      TestNetwork T
      → (ℕ → Option GoError)
      → ℕ
      → Receipt
      → SubnetInfo T
      → SubnetInfo T
      → Bool
      → Option (Outcome Receipt)
  relay_message network expired rounds source_receipt source destination expect_success =
      elim (sent_message_id network source_receipt source) [
        | fail e ↦ some (fail e)
        | panic e ↦ some (panic e)
        | ok message_id ↦
            elim (get_message_delivery_transaction_receipt T network expired rounds
              source.blockchain_id destination message_id) [
                | none ↦ none
                | some delivered ↦ some (check_receipt delivered)
              ]
      ]
