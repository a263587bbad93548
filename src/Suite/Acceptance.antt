-- ===== src/Suite/Acceptance.antt =====
-- The helpers of tests/utils/utils.go that send a transaction and wait for its acceptance. `AcceptLib` is a parameter for
-- the packages bind, ethclient and crypto and for the generated bindings. Its calls take the state of the
-- chains, `World`, and those that send a transaction or wait return the next one.
pub mod Deploys
pub mod Laws
use teleporter.Base.{ℕ, ◌==◌, Bool, true, false, List, [], ◌∷◌, new, if◌then◌else◌}
use teleporter.Base.{ℤ, pos, ◌+ℤ◌, eqb, Outcome, ok, fail, panic, ◌>>=◌, ◌>>◌, or_panic, expect}
use teleporter.Text.{Text}
use teleporter.Bindings.Types.{
  Bytes, Address, Hash, Log, TeleporterMessage, TeleporterMessageInput, TeleporterFeeInfo,
  TeleporterMessengerSendCrossChainMessage, TeleporterMessengerAddFeeAmount,
}
use teleporter.Suite.Logs.{get_event_from_logs}
use teleporter.Suite.Wait.{Receipt, receipt_status_failed, receipt_status_successful}

pub record AcceptLib : Type 1 where
  pub World : Type 0
  pub Client : Type 0
  pub Key : Type 0
  pub Opts : Type 0
  pub SignedTx : Type 0
  pub Messenger : Type 0
  pub Token : Type 0
  -- `crypto.PubkeyToAddress(key.PublicKey)`, `bind.NewKeyedTransactorWithChainID`
  pub key_address : Key → Address
  pub new_keyed_transactor_with_chain_id : Key → ℤ → Outcome Opts
  -- the client: sending, `bind.WaitMined`, and a balance at the latest block
  pub send_transaction : Client → SignedTx → World → Outcome World
  pub wait_mined : Client → SignedTx → World → Outcome (Receipt × World)
  pub balance_at : Client → Address → World → Outcome ℤ
  -- the bindings' methods that send a transaction
  pub send_cross_chain_message :
      Messenger → Opts → TeleporterMessageInput → World → Outcome (SignedTx × World)
  pub add_fee_amount :
      Messenger → Opts → Hash → ℤ → Address → ℤ → World → Outcome (SignedTx × World)
  pub retry_message_execution :
      Messenger → Opts → Hash → TeleporterMessage → World → Outcome (SignedTx × World)
  pub redeem_relayer_rewards : Messenger → Opts → Address → World → Outcome (SignedTx × World)
  pub send_specified_receipts :
      Messenger
      → Opts
      → Hash
      → List ℤ
      → TeleporterFeeInfo
      → List Address
      → World
      → Outcome (SignedTx × World)
  pub approve : Token → Opts → Address → ℤ → World → Outcome (SignedTx × World)
  -- the methods that read
  pub check_relayer_reward_amount : Messenger → Address → Address → World → Outcome ℤ
  pub balance_of : Token → Address → World → Outcome ℤ
  pub parse_send_cross_chain_message :
      Messenger → Log → Outcome TeleporterMessengerSendCrossChainMessage
  pub parse_add_fee_amount : Messenger → Log → Outcome TeleporterMessengerAddFeeAmount

module _ (C : AcceptLib) where
  open C use {World, Client, Key, SignedTx, Messenger, Token}

  -- `interfaces.SubnetTestInfo`, as far as these helpers read it.
  pub record AcceptingSubnet : Type 0 where
    pub blockchain_id : Hash
    pub rpc_client : Client
    pub evm_chain_id : ℤ
    pub teleporter_registry_address : Address
    pub teleporter_messenger : Messenger

  -- `bind.WaitMined` with the assertions behind it: no error, and the transaction succeeded.
  unfoldable pub wait_successful : Client → SignedTx → World → Outcome (Receipt × World)
  wait_successful client txn w = do
    mined ← or_panic "Expect(err)" (C.wait_mined client txn w)
    expect (mined.0.status == receipt_status_successful) "Expect(receipt.Status)"
    ok mined

  unfoldable pub send_transaction_and_wait_for_acceptance :
      AcceptingSubnet → SignedTx → Bool → World → Outcome (Receipt × World)
  send_transaction_and_wait_for_acceptance subnet_info tx expect_success w = do
    w1 ← or_panic "Expect(err)" (C.send_transaction subnet_info.rpc_client tx w)
    mined ← or_panic "Expect(err)" (C.wait_mined subnet_info.rpc_client tx w1)
    expect
        (mined.0.status
          == (if expect_success then receipt_status_successful else receipt_status_failed))
        "Expect(receipt.Status)"
    ok mined

  unfoldable pub send_cross_chain_message_and_wait_for_acceptance :
      AcceptingSubnet → TeleporterMessageInput → Key → World → Outcome ((Receipt × ℤ) × World)
  send_cross_chain_message_and_wait_for_acceptance source input sender_key w = do
    opts ←
        or_panic "Expect(err)" (C.new_keyed_transactor_with_chain_id sender_key source.evm_chain_id)
    txn ←
        or_panic "Expect(err)" (C.send_cross_chain_message source.teleporter_messenger opts input w)
    mined ← wait_successful source.rpc_client txn.0 txn.1
    event ← or_panic "Expect(err)" (
        get_event_from_logs (C.parse_send_cross_chain_message source.teleporter_messenger)
          mined.0.logs)
    ok ((mined.0, event.message.message_id), mined.1)

  unfoldable pub send_add_fee_amount_and_wait_for_acceptance :
      AcceptingSubnet
      → AcceptingSubnet
      → ℤ
      → ℤ
      → Address
      → Key
      → Messenger
      → World
      → Outcome (Receipt × World)
  send_add_fee_amount_and_wait_for_acceptance source destination message_id amount
        fee_contract_address sender_key transactor w =
      do
        opts ←
            or_panic "Expect(err)"
              (C.new_keyed_transactor_with_chain_id sender_key source.evm_chain_id)
        txn ← or_panic "Expect(err)" (
            C.add_fee_amount transactor opts destination.blockchain_id message_id
              fee_contract_address amount w)
        mined ← wait_successful source.rpc_client txn.0 txn.1
        event ←
            or_panic "Expect(err)"
              (get_event_from_logs (C.parse_add_fee_amount transactor) mined.0.logs)
        expect (eqb event.message_id message_id) "Expect(addFeeAmountEvent.MessageID)"
        expect (event.destination_blockchain_id == destination.blockchain_id)
            "Expect(addFeeAmountEvent.DestinationBlockchainID)"
        ok mined

  unfoldable pub retry_message_execution_and_wait_for_acceptance :
      Hash → AcceptingSubnet → TeleporterMessage → Key → World → Outcome (Receipt × World)
  retry_message_execution_and_wait_for_acceptance origin_chain_id subnet message sender_key w = do
    opts ←
        or_panic "Expect(err)" (C.new_keyed_transactor_with_chain_id sender_key subnet.evm_chain_id)
    txn ←
        or_panic "Expect(err)"
          (C.retry_message_execution subnet.teleporter_messenger opts origin_chain_id message w)
    wait_successful subnet.rpc_client txn.0 txn.1

  -- `Equal` on two `*big.Int` is modelled as their being the same number.
  unfoldable pub redeem_relayer_rewards_and_confirm :
      AcceptingSubnet → Token → Address → Key → ℤ → World → Outcome (Receipt × World)
  redeem_relayer_rewards_and_confirm subnet fee_token fee_token_address relayer_key expected_amount
        w =
      do
        let relayer_address = C.key_address relayer_key
        balance_before ← or_panic "Expect(err)" (C.balance_of fee_token relayer_address w)
        tx_opts ←
            or_panic "Expect(err)"
              (C.new_keyed_transactor_with_chain_id relayer_key subnet.evm_chain_id)
        transaction ←
            or_panic "Expect(err)"
              (C.redeem_relayer_rewards subnet.teleporter_messenger tx_opts fee_token_address w)
        mined ← wait_successful subnet.rpc_client transaction.0 transaction.1
        balance_after ← or_panic "Expect(err)" (C.balance_of fee_token relayer_address mined.1)
        expect (eqb balance_after (balance_before +ℤ expected_amount))
            "Expect(balanceAfterRedemption)"
        updated_reward_amount ← or_panic "Expect(err)" (
            C.check_relayer_reward_amount subnet.teleporter_messenger relayer_address
              fee_token_address mined.1)
        expect (eqb updated_reward_amount (pos 0)) "Expect(updatedRewardAmount)"
        ok mined

  unfoldable pub send_specified_receipts_and_wait_for_acceptance :
      Hash
      → AcceptingSubnet
      → List ℤ
      → TeleporterFeeInfo
      → List Address
      → Key
      → World
      → Outcome ((Receipt × ℤ) × World)
  send_specified_receipts_and_wait_for_acceptance origin_chain_id source message_ids fee_info
        allowed_relayer_addresses sender_key w =
      do
        opts ←
            or_panic "Expect(err)"
              (C.new_keyed_transactor_with_chain_id sender_key source.evm_chain_id)
        txn ← or_panic "Expect(err)" (
            C.send_specified_receipts source.teleporter_messenger opts origin_chain_id message_ids
              fee_info allowed_relayer_addresses w)
        mined ← wait_successful source.rpc_client txn.0 txn.1
        event ← or_panic "Expect(err)" (
            get_event_from_logs (C.parse_send_cross_chain_message source.teleporter_messenger)
              mined.0.logs)
        expect (event.destination_blockchain_id == origin_chain_id)
            "Expect(event.DestinationBlockchainID)"
        ok ((mined.0, event.message.message_id), mined.1)

  -- `ExpectBigEqual` compares the decimal prints, which are those of one number only.
  unfoldable pub expect_big_equal : ℤ → ℤ → Outcome (Unit {0})
  expect_big_equal v1 v2 = expect (eqb v1 v2) "Expect(v1.String()).Should(Equal(v2.String()))"

  unfoldable pub check_balance : Address → ℤ → Client → World → Outcome (Unit {0})
  check_balance addr expected_balance ws_client w = do
    bal ← or_panic "Expect(err)" (C.balance_at ws_client addr w)
    expect_big_equal bal expected_balance

  -- `ERC20Approve`
  unfoldable pub erc20_approve : Token → Address → ℤ → AcceptingSubnet → Key → World → Outcome World
  erc20_approve token spender amount source sender_key w = do
    opts ←
        or_panic "Expect(err)" (C.new_keyed_transactor_with_chain_id sender_key source.evm_chain_id)
    txn ← or_panic "Expect(err)" (C.approve token opts spender amount w)
    mined ← wait_successful source.rpc_client txn.0 txn.1
    ok mined.1

  -- `GetThreeSubnets`, of the subnets of a network.
  unfoldable pub get_three_subnets :
      List AcceptingSubnet → Outcome (AcceptingSubnet × AcceptingSubnet × AcceptingSubnet)
  get_three_subnets (a ∷ b ∷ c ∷ subnets) = ok (a, b, c)
  get_three_subnets _ = panic (new "Expect(len(subnets)).Should(BeNumerically(>=, 3))")
