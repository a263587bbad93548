-- ===== src/Suite/Transactions/Laws.antt =====
-- The transaction constructors of tests/utils/utils.go: gas, fees, nonce and call data of what is signed.
use teleporter.Base.{ℕ, ◌+◌, ◌*◌, ◌<◌, ◌≤◌, ◌^◌, ◌≡◌, sym, ap, ◌∙◌, some, arith}
use teleporter.Base.{
  ℤ, pos, pos_part, ok, GoError, >>=-eq-ok, >>=-or_panic, or_panic-eq-ok, ok-injective,
}
use mathlib.Core.Path.{subst}
use teleporter.Bindings.Types.{Bytes, Address}
use teleporter.Bindings.Packing.{pack_receive_cross_chain_message}
use teleporter.Utils.Gas.{calculate_receive_message_gas_limit}
use teleporter.Utils.Gas.Laws.{IsAdd64, calculate_receive_message_gas_limit_bounds}
use teleporter.Suite.Transactions.{
  ChainLib, DynamicFeeTx, SignedMessage, SubnetTestInfo, calculate_tx_params, sign_transaction,
  receive_cross_chain_message_tx, create_receive_cross_chain_message_transaction,
}

module _ (C : ChainLib) where
  -- The fees and the nonce of a transaction are the ones of the subnet for an address, now: the fee cap is twice the base
  -- fee and 2.5 gwei, the nonce is the account's.
  pub record HasFees (subnet : SubnetTestInfo C) (sender : Address) (tx : DynamicFeeTx)
      : Type 0 where
    pub base_fee : ℕ
    pub estimated : C.estimate_base_fee subnet.rpc_client ≡ ok base_fee
    pub fee_cap : tx.gas_fee_cap ≡ pos (2 * base_fee + 2_500_000_000)
    pub tip_cap : C.suggest_gas_tip_cap subnet.rpc_client ≡ ok tx.gas_tip_cap
    pub nonce_now : C.nonce_at subnet.rpc_client sender ≡ ok tx.nonce

  -- The value of `calculate_tx_params`, with the answers that it is made of.
  abbrev FeesOf : SubnetTestInfo C → Address → ℤ × ℤ × ℕ → Type 0
  FeesOf subnet sender fees =
      (base_fee : ℕ) × (C.estimate_base_fee subnet.rpc_client ≡ ok base_fee)
      × (fees.0 ≡ pos (2 * base_fee + 2_500_000_000))
      × (C.suggest_gas_tip_cap subnet.rpc_client ≡ ok fees.1)
      × (C.nonce_at subnet.rpc_client sender ≡ ok fees.2)

  calculate_tx_params_ok :
      (subnet : SubnetTestInfo C) (sender : Address) {fees : ℤ × ℤ × ℕ}
      → calculate_tx_params C subnet sender ≡ ok fees
      → FeesOf subnet sender fees
  unfolding calculate_tx_params
  calculate_tx_params_ok subnet sender {fees} h =
      let (base_fee, e1, h1) = >>=-or_panic _ (C.estimate_base_fee subnet.rpc_client) _ h in
      let (tip, e2, h2) = >>=-or_panic _ (C.suggest_gas_tip_cap subnet.rpc_client) _ h1 in
      let (nonce, e3, e) = >>=-or_panic _ (C.nonce_at subnet.rpc_client sender) _ h2 in
      (base_fee, e1, ground arith, ground arith, ground arith)

  module _ (overflow : GoError) (adds : IsAdd64 C.add64 overflow) where
    -- If `CreateReceiveCrossChainMessageTransaction` returns a transaction, then it is the signature by the sender's key, for the
    -- subnet's chain, of one that calls the Teleporter contract to receive message 0 with the sender as reward address, carries the Warp
    -- message's bytes as predicate of the Warp contract, has the fees and nonce of the sender now, and gas for the required limit,
    -- the static cost and the buffer at least, in uint64.
    pub create_receive_cross_chain_message_transaction_ok :
        (warp_message_bytes : Bytes) (limit : ℤ) (teleporter : Address) (key : C.Key)
        (subnet : SubnetTestInfo C) {signed : C.SignedTx}
        → create_receive_cross_chain_message_transaction C warp_message_bytes limit teleporter key
            subnet
          ≡ ok signed
        → (tx : DynamicFeeTx) × (message : SignedMessage) × (C.sign_tx tx subnet.evm_chain_id key
            ≡ ok signed)
          × (C.parse_message warp_message_bytes ≡ ok message)
          × (tx.predicate ≡ some (C.warp_contract_address, message.bytes))
          × (tx.to ≡ teleporter)
          × (pack_receive_cross_chain_message C.abi 0 (C.private_key_to_address key)
              ≡ ok tx.tx_data)
          × HasFees subnet (C.private_key_to_address key) tx
          × (tx.gas < 2 ^ 64)
          × (pos_part limit + 2_100_000 ≤ tx.gas)
    unfolding create_receive_cross_chain_message_transaction receive_cross_chain_message_tx
        sign_transaction
    create_receive_cross_chain_message_transaction_ok warp_message_bytes limit teleporter key subnet
          h =
        let sender = C.private_key_to_address key in
        let (tx, built, signs) =
          >>=-eq-ok
            (receive_cross_chain_message_tx C warp_message_bytes limit teleporter key subnet) _ h in
        let (message, parsed, h1) = >>=-or_panic _ (C.parse_message warp_message_bytes) _ built in
        let (signers, counted, h2) = >>=-or_panic _ message.num_signers _ h1 in
        let (gas, limited, h3) =
          >>=-or_panic _ (calculate_receive_message_gas_limit C.add64 signers limit) _ h2 in
        let (call_data, packed, h4) =
          >>=-or_panic _ (pack_receive_cross_chain_message C.abi 0 sender) _ h3 in
        let (fees, charged, e) = >>=-eq-ok (calculate_tx_params C subnet sender) _ h4 in
        let (base_fee, estimated, fee_cap, tip_cap, nonce_now) =
          calculate_tx_params_ok subnet sender charged in
        let (fits, covers) =
          calculate_receive_message_gas_limit_bounds C.add64 overflow adds signers limit limited in
        let same = ok-injective e in
        let gas_same = ap (λ (t : DynamicFeeTx). t.gas) same in
        (
          tx,
          message,
          or_panic-eq-ok _ _ signs,
          parsed,
          sym (ap (λ (t : DynamicFeeTx). t.predicate) same),
          sym (ap (λ (t : DynamicFeeTx). t.to) same),
          packed ∙ ap (λ (t : DynamicFeeTx). ok t.tx_data) same,
          record {
            base_fee = base_fee;
            estimated = estimated;
            fee_cap = sym (ap (λ (t : DynamicFeeTx). t.gas_fee_cap) same) ∙ fee_cap;
            tip_cap = tip_cap ∙ ap (λ (t : DynamicFeeTx). ok t.gas_tip_cap) same;
            nonce_now = nonce_now ∙ ap (λ (t : DynamicFeeTx). ok t.nonce) same;
          },
          subst (λ g. g < 2 ^ 64) gas_same fits,
          subst (λ g. pos_part limit + 2_100_000 ≤ g) gas_same covers,
        )
