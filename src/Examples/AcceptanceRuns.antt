-- ===== src/Examples/AcceptanceRuns.antt =====
-- The helpers that wait for acceptance on a chain with one relayer.
use teleporter.Base.{ℕ, ◌+◌, ◌≡◌, refl, [], ◌∷◌, if◌then◌else◌, ◌==◌}
use teleporter.Base.{pos, ok, fail, new}
use teleporter.Bindings.Types.{Log}
use teleporter.Suite.Logs.{get_event_from_logs}
use teleporter.Suite.Wait.{Receipt}
use teleporter.Suite.Acceptance.{
  AcceptLib, AcceptingSubnet, wait_successful, send_add_fee_amount_and_wait_for_acceptance,
  redeem_relayer_rewards_and_confirm, send_specified_receipts_and_wait_for_acceptance,
}
use teleporter.Suite.Acceptance.Laws.{IsRedemption, redeem_relayer_rewards_and_confirm_ok}
use teleporter.Examples.TestnetRuns.{sent}

abbrev pub log_of : ℕ → Log
log_of event = record { address = event; topics = []; log_data = []; tx_hash = 1 }

abbrev pub receipt_of : ℕ → Receipt
receipt_of tx = record {
  status = 1;
  logs = log_of 50 ∷ log_of tx ∷ [];
  block_hash = 1;
  block_number = 1;
}

-- The state is the relayer's balance and its reward. A transaction is the kind of event that it emits, and the
-- redemption, 6, pays when it is mined.
abbrev mine : ℕ → ℕ × ℕ → ℕ × ℕ
mine tx (balance, reward) = if tx == 6 then (balance + reward, 0) else (balance, reward)

abbrev pub toy_accept : AcceptLib
toy_accept = record {
  World = ℕ × ℕ;
  Client = Unit {0};
  Key = ℕ;
  Opts = ℕ;
  SignedTx = ℕ;
  Messenger = Unit {0};
  Token = Unit {0};
  key_address = λ key. key;
  new_keyed_transactor_with_chain_id = λ key _. ok key;
  send_transaction = λ _ _ w. ok w;
  wait_mined = λ _ tx w. ok (receipt_of tx, mine tx w);
  balance_at = λ _ _ w. ok (pos w.0);
  send_cross_chain_message = λ _ _ _ w. ok (3, w);
  add_fee_amount = λ _ _ _ _ _ _ w. ok (4, w);
  retry_message_execution = λ _ _ _ _ w. ok (5, w);
  redeem_relayer_rewards = λ _ _ _ w. ok (6, w);
  send_specified_receipts = λ _ _ _ _ _ _ w. ok (3, w);
  approve = λ _ _ _ _ w. ok (7, w);
  check_relayer_reward_amount = λ _ _ _ w. ok (pos w.1);
  balance_of = λ _ _ w. ok (pos w.0);
  parse_send_cross_chain_message =
      λ _ log. if log.address == 3 then ok (sent log) else fail (new "event signature mismatch");
  parse_add_fee_amount = λ _ log.
      if log.address == 4
      then ok (record {
        destination_blockchain_id = 17;
        message_id = pos 8;
        updated_fee_info = record { fee_token_address = 2; amount = pos 5 };
        raw = log;
      })
      else fail (new "event signature mismatch");
}

abbrev chain : AcceptingSubnet toy_accept
chain = record {
  blockchain_id = 17;
  rpc_client = tt;
  evm_chain_id = pos 99;
  teleporter_registry_address = 2;
  teleporter_messenger = tt;
}

redeem_run :
    redeem_relayer_rewards_and_confirm toy_accept chain tt 2 1 (pos 30) (10, 30)
    ≡ ok (receipt_of 6, (40, 0))
unfolding redeem_relayer_rewards_and_confirm wait_successful
redeem_run = refl

redeem_relayer_rewards_and_confirm_ok_example :
    IsRedemption toy_accept chain tt 2 1 (pos 30) (10, 30) (receipt_of 6, (40, 0))
redeem_relayer_rewards_and_confirm_ok_example =
    redeem_relayer_rewards_and_confirm_ok toy_accept chain tt 2 1 (pos 30) (10, 30)
      (receipt_of 6, (40, 0)) redeem_run

add_fee_run :
    send_add_fee_amount_and_wait_for_acceptance toy_accept chain chain (pos 8) (pos 5) 2 1 tt (0, 0)
    ≡ ok (receipt_of 4, (0, 0))
unfolding send_add_fee_amount_and_wait_for_acceptance wait_successful get_event_from_logs
add_fee_run = refl

receipts_run :
    send_specified_receipts_and_wait_for_acceptance toy_accept 17 chain
      (pos 1 ∷ [])
      (record { fee_token_address = 2; amount = pos 0 })
      []
      1
      (0, 0)
    ≡ ok ((receipt_of 3, pos 4), (0, 0))
unfolding send_specified_receipts_and_wait_for_acceptance wait_successful get_event_from_logs
receipts_run = refl
