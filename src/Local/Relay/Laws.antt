-- ===== src/Local/Relay/Laws.antt =====
-- `RelayMessage` of tests/local/network.go: what has happened on both chains when it comes back.
use teleporter.Base.{ℕ, ◌+◌, ◌≤◌, ◌≡◌, refl, Bool, [], ◌∷◌, Option, some, GoError}
use teleporter.Base.{pos_part, ok, or_panic-eq-ok}
use teleporter.Bindings.Types.{Bytes, Address, Hash, Log, TeleporterMessengerSendCrossChainMessage}
use teleporter.Suite.Logs.{get_event_from_logs_iff, IsFirst}
use teleporter.Suite.Transactions.{DynamicFeeTx, SignedMessage}
use teleporter.Suite.Transactions.Laws.{create_receive_cross_chain_message_transaction_ok}
use teleporter.Suite.Wait.{Receipt}
use teleporter.Utils.Gas.Laws.{IsAdd64}
use teleporter.Local.{LocalSubnetInfo}
use teleporter.Local.BlockWait.{AllAccepted}
use teleporter.Local.Warp.{construct_signed_warp_message_bytes_ok}
use teleporter.Local.Relay.Steps.{Returned, expected_status, delivered, relays}
use teleporter.Local.Relay.{RelayLib, chain_subnet, sent_event, relay_message}

module _ (R : RelayLib) (teleporter_contract_address : Address) (global_funded_key : R.chain.Key)
    (source_receipt : Receipt) (source destination : LocalSubnetInfo R.local) where
  abbrev World : Type 0
  World = R.accept.World

  -- The message of the source chain, its signature and the transaction that carries it.
  pub record Relayed (rounds : ℕ) (w : World) (receipt : Receipt) (after : World) : Type 0 where
    pub event : TeleporterMessengerSendCrossChainMessage
    pub emitted :
        IsFirst
          (R.accept.parse_send_cross_chain_message (R.accept_messenger source.teleporter_messenger))
          source_receipt.logs
          event
    -- the Warp message of the source's block, and its signature by validators that have accepted the block
    pub warp_log : Log
    pub id : Hash
    pub logged :
        R.warp.filter_warp_logs source.rpc_client source_receipt.block_hash ≡ ok (warp_log ∷ [])
    pub identified : R.warp.unpack_message_id warp_log.log_data ≡ ok id
    pub accepted :
        AllAccepted R.local source.blockchain_id source_receipt.block_number rounds source.node_uris
    pub client : R.warp.WarpClient
    pub bytes : Bytes
    pub aggregated :
        R.warp.get_message_aggregate_signature client id R.warp.warp_quorum_denominator ≡ ok bytes
    -- the transaction
    pub message : SignedMessage
    pub tx : DynamicFeeTx
    pub signed : R.chain.SignedTx
    pub parsed : R.chain.parse_message bytes ≡ ok message
    pub signs : R.chain.sign_tx tx destination.evm_chain_id global_funded_key ≡ ok signed
    pub carries : tx.predicate ≡ some (R.chain.warp_contract_address, message.bytes)
    pub calls : tx.to ≡ teleporter_contract_address
    pub gas_enough : pos_part event.message.required_gas_limit + 2_100_000 ≤ tx.gas
    -- what the destination did with it
    pub sent_world : World
    pub sent :
        R.accept.send_transaction (R.accept_client destination.rpc_client) (R.accept_tx signed) w
        ≡ ok sent_world
    pub mined :
        R.accept.wait_mined (R.accept_client destination.rpc_client) (R.accept_tx signed) sent_world
        ≡ ok (receipt, after)

  module _ (overflow : GoError) (adds : IsAdd64 R.chain.add64 overflow) where
    -- If `RelayMessage` comes back, whether a success is expected or not, then the first message event of the source's
    -- receipt, the only Warp log of its block, the aggregate signature of validators that have all accepted the
    -- block, and a transaction that carries the signed message with gas for the event's limit belong together, and
    -- the destination has mined that transaction with the status that is expected. It returns nothing where a failure
    -- is, and else the receipt, in which the received message names the source chain.
    pub relay_message_confirmed :
        (expect_success : Bool) (rounds : ℕ) (w : World) {out : Option Receipt × World}
        → relay_message R teleporter_contract_address global_funded_key source_receipt source
            destination expect_success rounds w
          ≡ some (ok out)
        → (receipt : Receipt) × Relayed rounds w receipt out.1
          × (receipt.status
              ≡ expected_status R teleporter_contract_address global_funded_key source_receipt
                  source destination expect_success)
          × Returned R teleporter_contract_address global_funded_key source_receipt source
              destination expect_success out.0 receipt
    unfolding sent_event chain_subnet
    relay_message_confirmed expect_success rounds w {out} h =
        let parser =
          R.accept.parse_send_cross_chain_message
            (R.accept_messenger source.teleporter_messenger) in
        let (event, bytes, found, signs, h1) =
          relays R teleporter_contract_address global_funded_key source_receipt source destination _
            _ expect_success rounds w {out = out} refl refl h in
        let (log, id, uri, client, logged, identified, accepted, first, made, aggregated) =
          construct_signed_warp_message_bytes_ok R.local R.warp source_receipt source rounds bytes
            signs in
        let (signed, receipt, sent_world, created, sends, mines, status, returned) =
          delivered R teleporter_contract_address global_funded_key source_receipt source
            destination event expect_success w bytes {out = out} h1 in
        let (tx, message, tx_signed, parsed, carries, calls, packed, fees, fits, covers) =
          create_receive_cross_chain_message_transaction_ok R.chain overflow adds bytes
            event.message.required_gas_limit teleporter_contract_address global_funded_key
            (chain_subnet R destination) created in
        (
          receipt,
          record {
            event = event;
            emitted =
                (get_event_from_logs_iff parser source_receipt.logs event).0
                  (or_panic-eq-ok _ _ found);
            warp_log = log;
            id = id;
            logged = logged;
            identified = identified;
            accepted = accepted;
            client = client;
            bytes = bytes;
            aggregated = aggregated;
            message = message;
            tx = tx;
            signed = signed;
            parsed = parsed;
            signs = tx_signed;
            carries = carries;
            calls = calls;
            gas_enough = covers;
            sent_world = sent_world;
            sent = sends;
            mined = mines;
          },
          status,
          returned,
        )
