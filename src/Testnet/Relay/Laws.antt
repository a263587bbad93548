-- ===== src/Testnet/Relay/Laws.antt =====
-- tests/testnet/network.go: what `RelayMessage` returns, and that it does.
use teleporter.Base.{List, [], ◌∷◌, ◌-◌, ◌%◌, ◌^◌, ◌∙◌, pos_part, neg_part, to_int64, >>=-eq-ok}
use teleporter.Base.{ℕ, zero, suc, ◌+◌, ◌<◌, ◌≡◌, refl, sym, Bool, true, false, arith, inl, inr}
use teleporter.Base.{
  Option, none, some, Option-cases, Outcome, ok, fail, panic, GoError, ◌>>=◌, >>=-or_panic,
  ok-injective, ℤ, if◌then◌else◌,
}
use teleporter.Text.{codes}
use teleporter.Bindings.Types.{Log, TeleporterMessengerSendCrossChainMessage}
use teleporter.Suite.Logs.{get_event_from_logs, get_event_from_logs_iff, IsFirst}
use teleporter.Suite.Wait.{Receipt}
use mathlib.Core.Path.{subst, ap}
use teleporter.Testnet.{TestnetLib, SubnetInfo, TestNetwork, FilterQuery}
use teleporter.Testnet.Delivery.{
  wait_until_delivered, check_message_delivered, find_delivery, delivery_query, start_block,
  only_log, get_message_delivery_transaction_receipt,
}
use teleporter.Testnet.Delivery.Loop.{wait_until_delivered_ends}
use teleporter.Testnet.Relay.{sent_message_id, check_receipt, relay_message}

-- A loop that ends without an error has been told so.
wait-told :
    (expired : ℕ → Option GoError) (answer : ℕ → Outcome Bool) (rounds n : ℕ) (done : Unit {0})
    → wait_until_delivered expired answer rounds n ≡ some (ok done)
    → (m : ℕ) × (answer m ≡ ok true)
unfolding wait_until_delivered
wait-told expired answer zero n done h = unfold wait_until_delivered in cc
wait-told expired answer (suc rounds) n done h = elim (Option-cases (expired n)) [
  | inr (e, over) ↦ cc (rw (over, wait_until_delivered) at h)
  | inl alive ↦
      told (answer n) refl (rw (alive, wait_until_delivered) at h)
        (wait-told expired answer rounds (n + 1) done)
]
  where
    told :
        (o : Outcome Bool)
        → answer n ≡ o
        → elim o [
          | ok delivered ↦
              if delivered then some (ok tt) else wait_until_delivered expired answer rounds (n + 1)
          | fail e ↦ wait_until_delivered expired answer rounds (n + 1)
          | panic e ↦ some (panic e)
        ]
          ≡ some (ok done)
        → (wait_until_delivered expired answer rounds (n + 1) ≡ some (ok done)
            → (m : ℕ) × (answer m ≡ ok true))
        → (m : ℕ) × (answer m ≡ ok true)
    told (ok true) e h later = (n, e)
    told (ok false) e h later = later h
    told (fail x) e h later = later h
    told (panic x) e h later = cc

check_receipt-eq-ok :
    (delivered : Outcome Receipt) {receipt : Receipt}
    → check_receipt delivered ≡ ok receipt
    → (delivered ≡ ok receipt) × (receipt.status ≡ 1)
unfolding check_receipt
check_receipt-eq-ok (ok r) h = ground arith
check_receipt-eq-ok (fail e) h = cc
check_receipt-eq-ok (panic e) h = cc

module _ (T : TestnetLib) (network : TestNetwork T) (expired : ℕ → Option GoError) (rounds : ℕ)
    (source_receipt : Receipt) (source destination : SubnetInfo T) (expect_success : Bool) where
  abbrev relay : Option (Outcome Receipt)
  relay = relay_message T network expired rounds source_receipt source destination expect_success

  abbrev waiting : ℤ → Option (Outcome (Unit {0}))
  waiting id =
      wait_until_delivered expired
        (check_message_delivered T network source.blockchain_id destination id) rounds 0

  abbrev delivery : ℤ → Option (Outcome Receipt)
  delivery id =
      get_message_delivery_transaction_receipt T network expired rounds source.blockchain_id
        destination id

  abbrev checked : Option (Outcome Receipt) → Option (Outcome Receipt)
  checked o = elim o [ none ↦ none | some delivered ↦ some (check_receipt delivered) ]

  relayed :
      (sent : Outcome ℤ) (receipt : Receipt)
      → sent_message_id T network source_receipt source ≡ sent
      → relay ≡ some (ok receipt)
      → (id : ℤ) × (sent ≡ ok id) × (checked (delivery id) ≡ some (ok receipt))
  unfolding relay_message
  relayed (ok id) receipt e h = (id, refl, rw (e, relay_message) at h)
  relayed (fail x) receipt e h = cc (rw (e, relay_message) at h)
  relayed (panic x) receipt e h = cc (rw (e, relay_message) at h)

  checked-eq-ok :
      (o : Option (Outcome Receipt)) {receipt : Receipt}
      → checked o ≡ some (ok receipt)
      → (o ≡ some (ok receipt)) × (receipt.status ≡ 1)
  checked-eq-ok none h = cc
  checked-eq-ok (some delivered) {receipt} h =
      let (e, good) = check_receipt-eq-ok delivered {receipt = receipt} cc in (ap some e, good)

  delivered-eq-ok :
      (id : ℤ) (waited : Option (Outcome (Unit {0}))) {receipt : Receipt}
      → waiting id ≡ waited
      → delivery id ≡ some (ok receipt)
      → ((done : Unit {0}) × (waited ≡ some (ok done)))
        × (find_delivery T network source.blockchain_id destination id ≡ ok receipt)
  unfolding get_message_delivery_transaction_receipt
  delivered-eq-ok id none e h = cc (rw (e, get_message_delivery_transaction_receipt) at h)
  delivered-eq-ok id (some (ok done)) e h =
      ((done, refl), cc (rw (e, get_message_delivery_transaction_receipt) at h))
  delivered-eq-ok id (some (fail x)) e h =
      cc (rw (e, get_message_delivery_transaction_receipt) at h)
  delivered-eq-ok id (some (panic x)) e h =
      cc (rw (e, get_message_delivery_transaction_receipt) at h)

  sent_message_id-eq-ok :
      {id : ℤ}
      → sent_message_id T network source_receipt source ≡ ok id
      → (messenger : T.Messenger) × (event : TeleporterMessengerSendCrossChainMessage)
        × (T.new_teleporter_messenger network.teleporter_contract_address source.rpc_client
            ≡ ok messenger)
        × IsFirst (T.parse_send_cross_chain_message messenger) source_receipt.logs event
        × (event.message.message_id ≡ id)
  unfolding sent_message_id
  sent_message_id-eq-ok h =
      let (messenger, made, h1) =
        >>=-or_panic _
          (T.new_teleporter_messenger network.teleporter_contract_address source.rpc_client) _ h in
      let parser = T.parse_send_cross_chain_message messenger in
      let (event, got, h2) = >>=-or_panic _ (get_event_from_logs parser source_receipt.logs) _ h1 in
      (
        messenger,
        event,
        made,
        (get_event_from_logs_iff parser source_receipt.logs event).0 got,
        ok-injective h2,
      )

  -- The messenger on the destination was asked in round m about that message of the source chain.
  checked-eq-true :
      (id : ℤ) (m : ℕ)
      → check_message_delivered T network source.blockchain_id destination id m ≡ ok true
      → (messenger : T.Messenger) × (T.new_teleporter_messenger network.teleporter_contract_address
            destination.rpc_client
          ≡ ok messenger)
        × (T.message_received messenger m source.blockchain_id id ≡ ok true)
  unfolding check_message_delivered
  checked-eq-true id m h =
      >>=-eq-ok
        (T.new_teleporter_messenger network.teleporter_contract_address destination.rpc_client) _ h

  -- The query for a delivery, from 500 blocks below the height or from the first block on.
  abbrev pub query_of : T.ContractAbi → ℕ → ℤ → FilterQuery
  query_of abi height id = record {
    from_block = to_int64 (height - 500);
    addresses = network.teleporter_contract_address ∷ [];
    topics =
        (T.event_id abi (codes "ReceiveCrossChainMessage") ∷ [])
        ∷ (source.blockchain_id ∷ [])
        ∷ ((pos_part id + neg_part id) % 2 ^ 256 ∷ [])
        ∷ [];
  }

  start_block-sub : (height : ℕ) → start_block height ≡ height - 500
  unfolding start_block
  start_block-sub height = ground arith

  only_log-eq-ok : (logs : List Log) {log : Log} → only_log logs ≡ ok log → logs ≡ log ∷ []
  unfolding only_log
  only_log-eq-ok [] h = cc
  only_log-eq-ok (x ∷ []) h = cc
  only_log-eq-ok (x ∷ y ∷ logs) h = cc

  -- The receipt is that of the transaction of the only log that the destination has for the query.
  pub IsFound : ℤ → Receipt → Type 0
  IsFound id receipt =
      (height : ℕ) × (abi : T.ContractAbi) × (log : Log) × (T.block_number destination.rpc_client
        ≡ ok height)
      × (T.get_abi ≡ ok abi)
      × (T.filter_logs destination.rpc_client (query_of abi height id) ≡ ok (log ∷ []))
      × (T.transaction_receipt destination.rpc_client log.tx_hash ≡ ok receipt)

  find_delivery-IsFound :
      (id : ℤ) (receipt : Receipt)
      → find_delivery T network source.blockchain_id destination id ≡ ok receipt
      → IsFound id receipt
  unfolding find_delivery delivery_query IsFound
  find_delivery-IsFound id receipt h =
      let (height, at_height, h1) = >>=-eq-ok (T.block_number destination.rpc_client) _ h in
      let (abi, has_abi, h2) = >>=-eq-ok T.get_abi _ h1 in
      let (logs, answered, h3) = >>=-eq-ok (T.filter_logs destination.rpc_client _) _ h2 in
      let (log, only, received) = >>=-eq-ok (only_log logs) _ h3 in
      (
        height,
        abi,
        log,
        at_height,
        has_abi,
        ap
              (λ (n : ℕ).
                T.filter_logs destination.rpc_client
                  (record (query_of abi height id) { from_block = to_int64 n }))
              (sym (start_block-sub height))
            ∙ answered
            ∙ ap ok (only_log-eq-ok logs only),
        received,
      )

  -- The message is that of the first log that parses, the messenger on the destination said, asked about the message of
  -- the source chain, that it has received it, and the receipt is the successful one of the transaction of the only
  -- log that the destination has for the delivery from 500 blocks below its height on.
  pub relay_message_ok :
      (receipt : Receipt)
      → relay_message T network expired rounds source_receipt source destination expect_success
        ≡ some (ok receipt)
      → (messenger asked : T.Messenger) × (event : TeleporterMessengerSendCrossChainMessage)
        × (m : ℕ) × (T.new_teleporter_messenger network.teleporter_contract_address
              source.rpc_client
            ≡ ok messenger)
        × IsFirst (T.parse_send_cross_chain_message messenger) source_receipt.logs event
        × (T.new_teleporter_messenger network.teleporter_contract_address destination.rpc_client
            ≡ ok asked)
        × (T.message_received asked m source.blockchain_id event.message.message_id ≡ ok true)
        × IsFound event.message.message_id receipt
        × (receipt.status ≡ 1)
  relay_message_ok receipt h =
      let (id, sent, h1) =
        relayed (sent_message_id T network source_receipt source) receipt refl h in
      let (e, good) = checked-eq-ok (delivery id) {receipt = receipt} h1 in
      let ((done, waited), found) = delivered-eq-ok id (waiting id) {receipt = receipt} refl e in
      let (m, told) = wait-told expired _ rounds 0 done waited in
      let (messenger, event, made, first, same) = sent_message_id-eq-ok sent in
      let (asked, bound, answered) = checked-eq-true id m told in
      (
        messenger,
        asked,
        event,
        m,
        made,
        first,
        bound,
        subst (λ i. T.message_received asked m source.blockchain_id i ≡ ok true) (sym same)
            answered,
        subst (λ i. IsFound i receipt) (sym same) (find_delivery-IsFound id receipt found),
        good,
      )

  -- If the context is over in some round below the bound, the call comes back: with a receipt, or by a failed assertion
  -- or a panic of the client.
  pub relay_message_ends :
      (k : ℕ) (e : GoError)
      → expired k ≡ some e
      → k < rounds
      → (out : Outcome Receipt) × (relay_message T network expired rounds source_receipt source
            destination expect_success
          ≡ some out)
  unfolding relay_message get_message_delivery_transaction_receipt
  relay_message_ends k e over fits = ends (sent_message_id T network source_receipt source) refl
    where
      ends :
          (sent : Outcome ℤ)
          → sent_message_id T network source_receipt source ≡ sent
          → (out : Outcome Receipt) × (relay ≡ some out)
      ends (fail x) sends = (fail x, rw (sends, relay_message))
      ends (panic x) sends = (panic x, rw (sends, relay_message))
      ends (ok id) sends =
          let (j, out, _, _, waited) =
            wait_until_delivered_ends expired
              (check_message_delivered T network source.blockchain_id destination id) k rounds e
              over fits in
          let found = find_delivery T network source.blockchain_id destination id in
          (
            check_receipt (out >>= λ _. found),
            rw (sends, relay_message, get_message_delivery_transaction_receipt, waited),
          )
