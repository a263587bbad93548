-- ===== src/Suite/Acceptance/Laws.antt =====
-- The helpers of tests/utils/utils.go that wait for acceptance: what holds of the chains when they come back.
use teleporter.Base.{ℕ, ◌==◌, ◌≡◌, refl, List, true, arith}
use teleporter.Base.{
  ℤ, pos, ◌+ℤ◌, eqb, eq_of_eqb, Outcome, ok, >>=-eq-ok, >>=-or_panic, >>-expect, ok-injective,
}
use mathlib.Core.Path.{subst}
use teleporter.Bindings.Types.{
  Address, Hash, TeleporterFeeInfo, TeleporterMessengerSendCrossChainMessage,
  TeleporterMessengerAddFeeAmount,
}
use teleporter.Suite.Logs.{get_event_from_logs, get_event_from_logs_iff, IsFirst}
use teleporter.Suite.Wait.{Receipt}
use teleporter.Suite.Acceptance.{
  AcceptLib, AcceptingSubnet, wait_successful, send_add_fee_amount_and_wait_for_acceptance,
  redeem_relayer_rewards_and_confirm, send_specified_receipts_and_wait_for_acceptance,
}

eq_of_test : (a b : ℕ) → (a == b) ≡ true → a ≡ b
eq_of_test a b h = ground arith

module _ (C : AcceptLib) where
  -- A transaction that was sent from the key on the subnet with that call, waited for in the state that the call left,
  -- and that succeeded.
  pub record Accepted (subnet : AcceptingSubnet C) (key : C.Key)
      (call : C.Opts → C.World → Outcome (C.SignedTx × C.World)) (w : C.World) (receipt : Receipt)
      (after : C.World) : Type 0 where
    pub opts : C.Opts
    pub txn : C.SignedTx
    pub sent_world : C.World
    pub keyed : C.new_keyed_transactor_with_chain_id key subnet.evm_chain_id ≡ ok opts
    pub sent : call opts w ≡ ok (txn, sent_world)
    pub mined : C.wait_mined subnet.rpc_client txn sent_world ≡ ok (receipt, after)
    pub successful : receipt.status ≡ 1

  pub wait_successful_ok :
      (client : C.Client) (txn : C.SignedTx) (w : C.World) {out : Receipt × C.World}
      → wait_successful C client txn w ≡ ok out
      → (C.wait_mined client txn w ≡ ok out) × (out.0.status ≡ 1)
  unfolding wait_successful
  wait_successful_ok client txn w h =
      let (mined, e, h1) = >>=-or_panic _ (C.wait_mined client txn w) _ h in
      let (good, h2) = >>-expect (mined.0.status == 1) _ (ok mined) h1 in
      let same = ok-injective h2 in
      (
        subst (λ m. C.wait_mined client txn w ≡ ok m) same e,
        subst (λ (m : Receipt × C.World). m.0.status ≡ 1) same (eq_of_test _ 1 good),
      )

  accepted :
      (subnet : AcceptingSubnet C) (key : C.Key)
      (call : C.Opts → C.World → Outcome (C.SignedTx × C.World)) (w : C.World) (opts : C.Opts)
      (txn : C.SignedTx × C.World) (mined : Receipt × C.World)
      → C.new_keyed_transactor_with_chain_id key subnet.evm_chain_id ≡ ok opts
      → call opts w ≡ ok txn
      → wait_successful C subnet.rpc_client txn.0 txn.1 ≡ ok mined
      → Accepted subnet key call w mined.0 mined.1
  accepted subnet key call w opts txn mined keyed sent waited =
      let (e, good) = wait_successful_ok subnet.rpc_client txn.0 txn.1 waited in
      record {
        opts = opts;
        txn = txn.0;
        sent_world = txn.1;
        keyed = keyed;
        sent = sent;
        mined = e;
        successful = good;
      }

  -- The call of the redemption, what it leaves of rewards and what it does to the balance.
  abbrev pub IsRedemption :
      AcceptingSubnet C → C.Token → Address → C.Key → ℤ → C.World → Receipt × C.World → Type 0
  IsRedemption subnet fee_token fee_token_address key amount w out =
      Accepted subnet key
        (λ opts. C.redeem_relayer_rewards subnet.teleporter_messenger opts fee_token_address) w
        out.0 out.1
      × ((before : ℤ) × (C.balance_of fee_token (C.key_address key) w ≡ ok before)
          × (C.balance_of fee_token (C.key_address key) out.1 ≡ ok (before +ℤ amount)))
      × (C.check_relayer_reward_amount subnet.teleporter_messenger (C.key_address key)
            fee_token_address out.1
          ≡ ok (pos 0))

  -- When the redemption is confirmed, the redeeming transaction succeeded, the relayer's balance of the token is higher
  -- than before it by the expected amount, and no reward is left.
  pub redeem_relayer_rewards_and_confirm_ok :
      (subnet : AcceptingSubnet C) (fee_token : C.Token) (fee_token_address : Address) (key : C.Key)
      (expected_amount : ℤ) (w : C.World) (out : Receipt × C.World)
      → redeem_relayer_rewards_and_confirm C subnet fee_token fee_token_address key expected_amount
          w
        ≡ ok out
      → IsRedemption subnet fee_token fee_token_address key expected_amount w out
  unfolding redeem_relayer_rewards_and_confirm
  redeem_relayer_rewards_and_confirm_ok subnet fee_token fee_token_address key expected_amount w out
        h =
      let relayer = C.key_address key in
      let messenger = subnet.teleporter_messenger in
      let (before, had, h1) = >>=-or_panic _ (C.balance_of fee_token relayer w) _ h in
      let (opts, keyed, h2) =
        >>=-or_panic _ (C.new_keyed_transactor_with_chain_id key subnet.evm_chain_id) _ h1 in
      let (txn, sent, h3) =
        >>=-or_panic _ (C.redeem_relayer_rewards messenger opts fee_token_address w) _ h2 in
      let (mined, waited, h4) = >>=-eq-ok (wait_successful C subnet.rpc_client txn.0 txn.1) _ h3 in
      let (now, has, h5) = >>=-or_panic _ (C.balance_of fee_token relayer mined.1) _ h4 in
      let (risen, h6) = >>-expect (eqb now (before +ℤ expected_amount)) _ _ h5 in
      let (left, rewards, h7) =
        >>=-or_panic _ (C.check_relayer_reward_amount messenger relayer fee_token_address mined.1) _
          h6 in
      let (none_left, h8) = >>-expect (eqb left (pos 0)) _ (ok mined) h7 in
      subst (IsRedemption subnet fee_token fee_token_address key expected_amount w)
        (ok-injective h8)
        (
          accepted subnet key (λ opts. C.redeem_relayer_rewards messenger opts fee_token_address) w
              opts txn mined keyed sent waited,
          (
            before,
            had,
            subst (λ z. C.balance_of fee_token relayer mined.1 ≡ ok z) (eq_of_eqb _ _ risen) has,
          ),
          subst
              (λ z.
                C.check_relayer_reward_amount messenger relayer fee_token_address mined.1 ≡ ok z)
              (eq_of_eqb _ _ none_left) rewards,
        )

  -- When the added fee is accepted, the transaction succeeded, and the first AddFeeAmount event in its receipt names the
  -- message and the destination that were given.
  pub send_add_fee_amount_and_wait_for_acceptance_ok :
      (source destination : AcceptingSubnet C) (message_id amount : ℤ)
      (fee_contract_address : Address) (key : C.Key) (transactor : C.Messenger) (w : C.World)
      (out : Receipt × C.World)
      → send_add_fee_amount_and_wait_for_acceptance C source destination message_id amount
          fee_contract_address key transactor w
        ≡ ok out
      → Accepted source key
          (λ opts.
            C.add_fee_amount transactor opts destination.blockchain_id message_id
              fee_contract_address amount)
          w
          out.0
          out.1
        × ((event : TeleporterMessengerAddFeeAmount) × IsFirst
              (C.parse_add_fee_amount transactor)
              out.0.logs
              event
            × (event.message_id ≡ message_id)
            × (event.destination_blockchain_id ≡ destination.blockchain_id))
  unfolding send_add_fee_amount_and_wait_for_acceptance
  send_add_fee_amount_and_wait_for_acceptance_ok source destination message_id amount
        fee_contract_address key transactor w out h =
      let call : C.Opts → C.World → Outcome (C.SignedTx × C.World) = λ opts.
        C.add_fee_amount transactor opts destination.blockchain_id message_id fee_contract_address
          amount in
      let parser = C.parse_add_fee_amount transactor in
      let (opts, keyed, h1) =
        >>=-or_panic _ (C.new_keyed_transactor_with_chain_id key source.evm_chain_id) _ h in
      let (txn, sent, h2) = >>=-or_panic _ (call opts w) _ h1 in
      let (mined, waited, h3) = >>=-eq-ok (wait_successful C source.rpc_client txn.0 txn.1) _ h2 in
      let (event, got, h4) = >>=-or_panic _ (get_event_from_logs parser mined.0.logs) _ h3 in
      let (same_message, h5) = >>-expect (eqb event.message_id message_id) _ _ h4 in
      let (same_chain, h6) =
        >>-expect (event.destination_blockchain_id == destination.blockchain_id) _ (ok mined) h5 in
      subst
        (λ (m : Receipt × C.World).
          Accepted source key call w m.0 m.1
          × ((event : TeleporterMessengerAddFeeAmount) × IsFirst parser m.0.logs event
              × (event.message_id ≡ message_id)
              × (event.destination_blockchain_id ≡ destination.blockchain_id)))
        (ok-injective h6)
        (
          accepted source key call w opts txn mined keyed sent waited,
          (
            event,
            (get_event_from_logs_iff parser mined.0.logs event).0 got,
            eq_of_eqb _ _ same_message,
            eq_of_test _ _ same_chain,
          ),
        )

  -- When the specified receipts are accepted, the transaction succeeded, and the first SendCrossChainMessage event in its
  -- receipt goes back to the origin chain and is that of the message whose identifier is returned.
  pub send_specified_receipts_and_wait_for_acceptance_ok :
      (origin : Hash) (source : AcceptingSubnet C) (message_ids : List ℤ)
      (fee_info : TeleporterFeeInfo) (relayers : List Address) (key : C.Key) (w : C.World)
      (out : (Receipt × ℤ) × C.World)
      → send_specified_receipts_and_wait_for_acceptance C origin source message_ids fee_info
          relayers key w
        ≡ ok out
      → Accepted source key
          (λ opts.
            C.send_specified_receipts source.teleporter_messenger opts origin message_ids fee_info
              relayers)
          w
          out.0.0
          out.1
        × ((event : TeleporterMessengerSendCrossChainMessage) × IsFirst
              (C.parse_send_cross_chain_message source.teleporter_messenger)
              out.0.0.logs
              event
            × (event.destination_blockchain_id ≡ origin)
            × (event.message.message_id ≡ out.0.1))
  unfolding send_specified_receipts_and_wait_for_acceptance
  send_specified_receipts_and_wait_for_acceptance_ok origin source message_ids fee_info relayers key
        w out h =
      let call : C.Opts → C.World → Outcome (C.SignedTx × C.World) = λ opts.
        C.send_specified_receipts source.teleporter_messenger opts origin message_ids fee_info
          relayers in
      let parser = C.parse_send_cross_chain_message source.teleporter_messenger in
      let (opts, keyed, h1) =
        >>=-or_panic _ (C.new_keyed_transactor_with_chain_id key source.evm_chain_id) _ h in
      let (txn, sent, h2) = >>=-or_panic _ (call opts w) _ h1 in
      let (mined, waited, h3) = >>=-eq-ok (wait_successful C source.rpc_client txn.0 txn.1) _ h2 in
      let (event, got, h4) = >>=-or_panic _ (get_event_from_logs parser mined.0.logs) _ h3 in
      let (same_chain, h5) = >>-expect (event.destination_blockchain_id == origin) _ _ h4 in
      subst
        (λ (m : (Receipt × ℤ) × C.World).
          Accepted source key call w m.0.0 m.1
          × ((event : TeleporterMessengerSendCrossChainMessage) × IsFirst parser m.0.0.logs event
              × (event.destination_blockchain_id ≡ origin)
              × (event.message.message_id ≡ m.0.1)))
        (ok-injective h5)
        (
          accepted source key call w opts txn mined keyed sent waited,
          (
            event,
            (get_event_from_logs_iff parser mined.0.logs event).0 got,
            eq_of_test _ _ same_chain,
            refl,
          ),
        )
