-- ===== src/Local/Warp.antt =====
-- `ConstructSignedWarpMessageBytes` of tests/local/network.go. `WarpLib` is a parameter for the Warp precompile's
-- package, its client, and the client's log filter.
use teleporter.Base.{ℕ, ◌≡◌, refl, ◌∙◌, ap, List, [], ◌∷◌, Option, none, some}
use teleporter.Base.{
  Outcome, ok, fail, panic, new, ◌>>=◌, or_panic, >>=-eq-ok, >>=-or_panic, or_panic-eq-ok,
}
use teleporter.Text.{Text}
use teleporter.Bindings.Types.{Bytes, Hash, Log}
use teleporter.Suite.Wait.{Receipt}
use teleporter.Local.{LocalLib, LocalSubnetInfo}
use teleporter.Local.Values.{first_uri}
use teleporter.Local.BlockWait.{
  wait_for_all_validators_to_accept_block, AllAccepted,
  wait_for_all_validators_to_accept_block-AllAccepted,
}

pub record WarpLib (L : LocalLib) : Type 1 where
  pub WarpClient : Type 0
  -- `FilterLogs` for one block and the address of the Warp precompile
  pub filter_warp_logs : L.Client → Hash → Outcome (List Log)
  -- `warp.UnpackSendWarpEventDataToMessage`, and the identifier of its message
  pub unpack_message_id : Bytes → Outcome Hash
  -- `warpBackend.NewClient`, its aggregate signature, and the quorum that the program asks for
  pub new_client : Text → Text → Outcome WarpClient
  pub get_message_aggregate_signature : WarpClient → Hash → ℕ → Outcome Bytes
  pub warp_quorum_denominator : ℕ

-- `Expect(len(logs)).Should(Equal(1))`, and `logs[0]`.
unfoldable pub one_log : List Log → Outcome Log
one_log (log ∷ []) = ok log
one_log _ = panic (new "Expect(len(logs)).Should(Equal(1))")

one_log-eq-ok : (logs : List Log) {log : Log} → one_log logs ≡ ok log → logs ≡ log ∷ []
unfolding one_log
one_log-eq-ok [] h = cc
one_log-eq-ok (x ∷ []) h = cc
one_log-eq-ok (x ∷ y ∷ logs) h = cc

module _ (L : LocalLib) (W : WarpLib L) (source_receipt : Receipt)
    (source : LocalSubnetInfo L) where
  -- The identifier of the message in the block's Warp log.
  unfoldable pub unsigned_warp_message_id : Outcome Hash
  unsigned_warp_message_id = do
    logs ← or_panic "Expect(err)" (W.filter_warp_logs source.rpc_client source_receipt.block_hash)
    tx_log ← one_log logs
    or_panic "Expect(err)" (W.unpack_message_id tx_log.log_data)

  -- The request for the aggregate signature.
  unfoldable pub signed_by_validators : Hash → Outcome Bytes
  signed_by_validators unsigned_warp_message_id = do
    uri ← first_uri source.node_uris
    warp_client ← or_panic "Expect(err)" (W.new_client uri (L.id_string source.blockchain_id))
    or_panic "Expect(err)" (
        W.get_message_aggregate_signature warp_client unsigned_warp_message_id
          W.warp_quorum_denominator)

  unfoldable pub then_sign : Option (Outcome (Unit {0})) → Hash → Option (Outcome Bytes)
  then_sign none id = none
  then_sign (some accepted) id = some (accepted >>= λ done. signed_by_validators id)

  -- `ConstructSignedWarpMessageBytes`, on a bound of the rounds with each validator.
  unfoldable pub construct_signed_warp_message_bytes : ℕ → Option (Outcome Bytes)
  construct_signed_warp_message_bytes rounds = elim unsigned_warp_message_id [
    | fail e ↦ some (fail e)
    | panic e ↦ some (panic e)
    | ok id ↦
        then_sign
          (wait_for_all_validators_to_accept_block L source.blockchain_id
            source_receipt.block_number source.node_uris rounds)
          id
  ]

  then_sign-eq-ok :
      (o : Option (Outcome (Unit {0}))) (id : Hash) {bytes : Bytes}
      → then_sign o id ≡ some (ok bytes)
      → ((done : Unit {0}) × (o ≡ some (ok done))) × (signed_by_validators id ≡ ok bytes)
  unfolding then_sign
  then_sign-eq-ok none id h = cc
  then_sign-eq-ok (some (ok done)) id h = ((done, refl), cc)
  then_sign-eq-ok (some (fail e)) id h = cc
  then_sign-eq-ok (some (panic e)) id h = cc

  signs :
      (o : Outcome Hash) (rounds : ℕ) (bytes : Bytes)
      → unsigned_warp_message_id ≡ o
      → construct_signed_warp_message_bytes rounds ≡ some (ok bytes)
      → (id : Hash) × (o ≡ ok id)
        × (then_sign
              (wait_for_all_validators_to_accept_block L source.blockchain_id
                source_receipt.block_number source.node_uris rounds)
              id
            ≡ some (ok bytes))
  unfolding construct_signed_warp_message_bytes
  signs (ok id) rounds bytes e h = (id, refl, rw (e, construct_signed_warp_message_bytes) at h)
  signs (fail x) rounds bytes e h = cc (rw (e, construct_signed_warp_message_bytes) at h)
  signs (panic x) rounds bytes e h = cc (rw (e, construct_signed_warp_message_bytes) at h)

  -- The bytes are the aggregate signature, at the full quorum, for the message of the only Warp log of the receipt's
  -- block, and every validator has said that it has accepted that block.
  pub construct_signed_warp_message_bytes_ok :
      (rounds : ℕ) (bytes : Bytes)
      → construct_signed_warp_message_bytes rounds ≡ some (ok bytes)
      → (log : Log) × (id : Hash) × (uri : Text) × (client : W.WarpClient) × (W.filter_warp_logs
            source.rpc_client source_receipt.block_hash
          ≡ ok (log ∷ []))
        × (W.unpack_message_id log.log_data ≡ ok id)
        × AllAccepted L source.blockchain_id source_receipt.block_number rounds source.node_uris
        × (first_uri source.node_uris ≡ ok uri)
        × (W.new_client uri (L.id_string source.blockchain_id) ≡ ok client)
        × (W.get_message_aggregate_signature client id W.warp_quorum_denominator ≡ ok bytes)
  unfolding unsigned_warp_message_id signed_by_validators
  construct_signed_warp_message_bytes_ok rounds bytes h =
      let (id, named, h1) = signs unsigned_warp_message_id rounds bytes refl h in
      let ((done, waited), signed) = then_sign-eq-ok _ id {bytes = bytes} h1 in
      let (logs, filtered, h2) =
        >>=-or_panic _ (W.filter_warp_logs source.rpc_client source_receipt.block_hash) _ named in
      let (log, only, h3) = >>=-eq-ok (one_log logs) _ h2 in
      let (uri, first, h4) = >>=-eq-ok (first_uri source.node_uris) _ signed in
      let (client, made, h5) =
        >>=-or_panic _ (W.new_client uri (L.id_string source.blockchain_id)) _ h4 in
      (
        log,
        id,
        uri,
        client,
        filtered ∙ ap ok (one_log-eq-ok logs {log = log} only),
        or_panic-eq-ok _ _ h3,
        wait_for_all_validators_to_accept_block-AllAccepted L source.blockchain_id
            source_receipt.block_number source.node_uris rounds done waited,
        first,
        made,
        or_panic-eq-ok _ _ h5,
      )
