-- ===== src/Local/Relay/Steps.antt =====
-- `RelayMessage` of tests/local/network.go: what its steps have done when they come back.
use mathlib.Core.Path.{subst}
use teleporter.Base.{
  ℕ, ◌==◌, ◌≡◌, refl, sym, ap, ◌∙◌, Bool, true, false, Option, none, some, if◌then◌else◌, arith,
}
use teleporter.Base.{Outcome, ok, fail, panic, >>=-eq-ok, >>=-or_panic, >>-expect, ok-injective}
use teleporter.Bindings.Types.{
  Bytes, Address, TeleporterMessengerSendCrossChainMessage,
  TeleporterMessengerReceiveCrossChainMessage,
}
use teleporter.Suite.Acceptance.{send_transaction_and_wait_for_acceptance}
use teleporter.Suite.Logs.{get_event_from_logs, get_event_from_logs_iff, IsFirst}
use teleporter.Suite.Transactions.{create_receive_cross_chain_message_transaction}
use teleporter.Suite.Wait.{Receipt}
use teleporter.Local.{LocalSubnetInfo}
use teleporter.Local.Warp.{construct_signed_warp_message_bytes}
use teleporter.Local.Relay.{
  RelayLib, chain_subnet, accepting_subnet, sent_event, confirmed, deliver, then_deliver,
  relay_message,
}

eq_of_test : (a b : ℕ) → (a == b) ≡ true → a ≡ b
eq_of_test a b h = ground arith

module _ (R : RelayLib) (teleporter_contract_address : Address) (global_funded_key : R.chain.Key)
    (source_receipt : Receipt) (source destination : LocalSubnetInfo R.local) where
  abbrev World : Type 0
  World = R.accept.World

  -- What is returned: nothing where a failure is expected; else the receipt, whose first event of the messenger that is
  -- a received message names the source chain.
  unfoldable pub Returned : Bool → Option Receipt → Receipt → Type 0
  Returned false returned receipt = returned ≡ none
  Returned true returned receipt =
      (returned ≡ some receipt)
      × ((event : TeleporterMessengerReceiveCrossChainMessage) × IsFirst
            (R.parse_receive_cross_chain_message
              (R.accept_messenger destination.teleporter_messenger))
            receipt.logs event
          × (event.origin_blockchain_id ≡ source.blockchain_id))

  abbrev pub expected_status : Bool → ℕ
  expected_status expect_success = if expect_success then 1 else 0

  confirmed_ok :
      (expect_success : Bool) (receipt : Receipt) (after : World) {out : Option Receipt × World}
      → confirmed R teleporter_contract_address global_funded_key source_receipt source destination
          expect_success
          (receipt, after)
        ≡ ok out
      → Returned expect_success out.0 receipt × (out.1 ≡ after)
  unfolding confirmed Returned
  confirmed_ok false receipt after h =
      let same = ok-injective h in (sym (ap (λ o. o.0) same), sym (ap (λ o. o.1) same))
  confirmed_ok true receipt after {out} h =
      let parser =
        R.parse_receive_cross_chain_message (R.accept_messenger destination.teleporter_messenger) in
      let (event, found, h1) = >>=-or_panic _ (get_event_from_logs parser receipt.logs) _ h in
      let (same_chain, h2) =
        >>-expect (event.origin_blockchain_id == source.blockchain_id) _ (ok (some receipt, after))
          h1 in
      let same = ok-injective h2 in
      (
        (
          sym (ap (λ o. o.0) same),
          (
            event,
            (get_event_from_logs_iff parser receipt.logs event).0 found,
            eq_of_test event.origin_blockchain_id source.blockchain_id same_chain,
          ),
        ),
        sym (ap (λ o. o.1) same),
      )

  -- What the destination did with the transaction, and with which status.
  pub delivered :
      (event : TeleporterMessengerSendCrossChainMessage) (expect_success : Bool) (w : World)
      (bytes : Bytes) {out : Option Receipt × World}
      → deliver R teleporter_contract_address global_funded_key source_receipt source destination
          event expect_success w bytes
        ≡ ok out
      → (signed : R.chain.SignedTx) × (receipt : Receipt) × (sent_world : World)
        × (create_receive_cross_chain_message_transaction R.chain bytes
              event.message.required_gas_limit teleporter_contract_address global_funded_key
              (chain_subnet R destination)
            ≡ ok signed)
        × (R.accept.send_transaction (R.accept_client destination.rpc_client) (R.accept_tx signed) w
            ≡ ok sent_world)
        × (R.accept.wait_mined
              (R.accept_client destination.rpc_client)
              (R.accept_tx signed)
              sent_world
            ≡ ok (receipt, out.1))
        × (receipt.status ≡ expected_status expect_success)
        × Returned expect_success out.0 receipt
  unfolding deliver send_transaction_and_wait_for_acceptance accepting_subnet
  delivered event expect_success w bytes {out} h =
      let tx =
        create_receive_cross_chain_message_transaction R.chain bytes
          event.message.required_gas_limit teleporter_contract_address global_funded_key
          (chain_subnet R destination) in
      let client = R.accept_client destination.rpc_client in
      let (signed, made, h1) = >>=-eq-ok tx _ h in
      let (mined, waited, h2) =
        >>=-eq-ok
          (send_transaction_and_wait_for_acceptance R.accept (accepting_subnet R destination)
            (R.accept_tx signed) expect_success w)
          _ h1 in
      let (sent_world, sends, h3) =
        >>=-or_panic _ (R.accept.send_transaction client (R.accept_tx signed) w) _ waited in
      let (answer, mines, h4) =
        >>=-or_panic _ (R.accept.wait_mined client (R.accept_tx signed) sent_world) _ h3 in
      let (status, h5) =
        >>-expect (answer.0.status == expected_status expect_success) _ (ok answer) h4 in
      let same = ok-injective h5 in
      let (returned, after) = confirmed_ok expect_success mined.0 mined.1 {out = out} h2 in
      (
        signed,
        mined.0,
        sent_world,
        made,
        sends,
        mines ∙ ap ok same ∙ ap (λ x. ok (mined.0, x)) (sym after),
        subst (λ (m : Receipt × World). m.0.status ≡ expected_status expect_success) same
            (eq_of_test _ _ status),
        returned,
      )

  -- A relay that comes back has found the event and the signed bytes.
  pub relays :
      (o : Outcome TeleporterMessengerSendCrossChainMessage) (s : Option (Outcome Bytes))
      (expect_success : Bool) (rounds : ℕ) (w : World) {out : Option Receipt × World}
      → sent_event R teleporter_contract_address global_funded_key source_receipt source destination
        ≡ o
      → construct_signed_warp_message_bytes R.local R.warp source_receipt source rounds ≡ s
      → relay_message R teleporter_contract_address global_funded_key source_receipt source
          destination expect_success rounds w
        ≡ some (ok out)
      → (event : TeleporterMessengerSendCrossChainMessage) × (bytes : Bytes) × (o ≡ ok event)
        × (s ≡ some (ok bytes))
        × (deliver R teleporter_contract_address global_funded_key source_receipt source destination
              event expect_success w bytes
            ≡ ok out)
  unfolding relay_message then_deliver
  relays (ok event) (some (ok bytes)) expect_success rounds w e es h =
      (event, bytes, refl, refl, cc (rw (e, relay_message, es) at h))
  relays (ok event) (some (fail x)) expect_success rounds w e es h =
      cc (rw (e, relay_message, es) at h)
  relays (ok event) (some (panic x)) expect_success rounds w e es h =
      cc (rw (e, relay_message, es) at h)
  relays (ok event) none expect_success rounds w e es h = cc (rw (e, relay_message, es) at h)
  relays (fail x) s expect_success rounds w e es h = cc (rw (e, relay_message) at h)
  relays (panic x) s expect_success rounds w e es h = cc (rw (e, relay_message) at h)
