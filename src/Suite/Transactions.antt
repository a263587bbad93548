-- ===== src/Suite/Transactions.antt =====
-- The transactions that tests/utils/utils.go builds, over a parameter for the RPC client, the keys and the
-- packages types, warp and predicate of subnet-evm and avalanchego.
pub mod Laws
use teleporter.Base.{ℕ, ◌+◌, ◌*◌, List, [], ◌∷◌, Option, none, some, String}
use teleporter.Base.{ℤ, pos, Outcome, ok, fail, panic, ◌>>=◌, or_panic}
use teleporter.Text.{Text}
use teleporter.Bindings.Types.{Bytes, Address, Hash, TeleporterMessage, TeleporterMessageInput}
use teleporter.Bindings.Abi.{AbiLib}
use teleporter.Bindings.Packing.{
  pack_send_cross_chain_message, pack_retry_message_execution, pack_receive_cross_chain_message,
}
use teleporter.Utils.Gas.{
  calculate_receive_message_gas_limit, base_fee_factor, max_priority_fee_per_gas,
}

-- `types.DynamicFeeTx`, and what `NewPredicateTx` adds: the predicate for an address in the access list.
pub record DynamicFeeTx : Type 0 where
  pub chain_id : ℤ
  pub nonce : ℕ
  pub to : Address
  pub gas : ℕ
  pub gas_fee_cap : ℤ
  pub gas_tip_cap : ℤ
  pub value : ℤ
  pub tx_data : Bytes
  pub predicate : Option (Address × Bytes)

-- A signed Warp message, as far as the helpers read it.
pub record SignedMessage : Type 0 where
  pub num_signers : Outcome ℤ
  pub bytes : Bytes

pub record ChainLib : Type 1 where
  pub abi : AbiLib
  pub Client : Type 0
  pub Key : Type 0
  pub SignedTx : Type 0
  -- the fee and nonce calls of the RPC client; base fees are not negative
  pub estimate_base_fee : Client → Outcome ℕ
  pub suggest_gas_tip_cap : Client → Outcome ℤ
  pub nonce_at : Client → Address → Outcome ℕ
  -- `crypto.PubkeyToAddress(k.PublicKey)`, and `types.SignTx` with the latest signer of a chain
  pub private_key_to_address : Key → Address
  pub sign_tx : DynamicFeeTx → ℤ → Key → Outcome SignedTx
  -- `avalancheWarp.ParseMessage`, and the address of the Warp precompile
  pub parse_message : Bytes → Outcome SignedMessage
  pub warp_contract_address : Address
  -- `math.Add64`
  pub add64 : ℕ → ℕ → Outcome ℕ

abbrev pub native_transfer_gas : ℕ
native_transfer_gas = 21_000

abbrev pub default_teleporter_transaction_gas : ℕ
default_teleporter_transaction_gas = 300_000

module _ (C : ChainLib) where
  open C use {Client, Key, SignedTx}

  -- `interfaces.SubnetTestInfo`, as far as these helpers read it.
  pub record SubnetTestInfo : Type 0 where
    pub subnet_id : Hash
    pub blockchain_id : Hash
    pub node_uris : List Text
    pub rpc_client : Client
    pub evm_chain_id : ℤ
    pub teleporter_registry_address : Address

  -- `CalculateTxParams`: the fee cap, the tip cap and the nonce.
  unfoldable pub calculate_tx_params : SubnetTestInfo → Address → Outcome (ℤ × ℤ × ℕ)
  calculate_tx_params subnet_info funded_address = do
    base_fee ← or_panic "Expect(err)" (C.estimate_base_fee subnet_info.rpc_client)
    gas_tip_cap ← or_panic "Expect(err)" (C.suggest_gas_tip_cap subnet_info.rpc_client)
    nonce ← or_panic "Expect(err)" (C.nonce_at subnet_info.rpc_client funded_address)
    let gas_fee_cap = base_fee * base_fee_factor + max_priority_fee_per_gas
    ok (pos gas_fee_cap, gas_tip_cap, nonce)

  -- `SignTransaction`
  unfoldable pub sign_transaction : DynamicFeeTx → Key → ℤ → Outcome SignedTx
  sign_transaction tx key chain_id = or_panic "Expect(err)" (C.sign_tx tx chain_id key)

  -- The transaction that `CreateSendCrossChainMessageTransaction` signs.
  unfoldable pub send_cross_chain_message_tx :
      SubnetTestInfo → TeleporterMessageInput → Key → Address → Outcome DynamicFeeTx
  send_cross_chain_message_tx source input sender_key teleporter_contract_address = do
    tx_data ← or_panic "Expect(err)" (pack_send_cross_chain_message C.abi input)
    fees ← calculate_tx_params source (C.private_key_to_address sender_key)
    ok (record {
      chain_id = source.evm_chain_id;
      nonce = fees.2;
      to = teleporter_contract_address;
      gas = default_teleporter_transaction_gas;
      gas_fee_cap = fees.0;
      gas_tip_cap = fees.1;
      value = pos 0;
      tx_data = tx_data;
      predicate = none;
    })

  -- The transaction that `CreateRetryMessageExecutionTransaction` signs.
  unfoldable pub retry_message_execution_tx :
      SubnetTestInfo → Hash → TeleporterMessage → Key → Address → Outcome DynamicFeeTx
  retry_message_execution_tx subnet_info origin_chain_id message sender_key
        teleporter_contract_address =
      do
        tx_data ←
            or_panic "Expect(err)" (pack_retry_message_execution C.abi origin_chain_id message)
        gas_limit ←
            or_panic "Expect(err)"
              (calculate_receive_message_gas_limit C.add64 (pos 10) message.required_gas_limit)
        fees ← calculate_tx_params subnet_info (C.private_key_to_address sender_key)
        ok (record {
          chain_id = subnet_info.evm_chain_id;
          nonce = fees.2;
          to = teleporter_contract_address;
          gas = gas_limit;
          gas_fee_cap = fees.0;
          gas_tip_cap = fees.1;
          value = pos 0;
          tx_data = tx_data;
          predicate = none;
        })

  -- The transaction that `CreateReceiveCrossChainMessageTransaction` signs.
  unfoldable pub receive_cross_chain_message_tx :
      Bytes → ℤ → Address → Key → SubnetTestInfo → Outcome DynamicFeeTx
  receive_cross_chain_message_tx warp_message_bytes required_gas_limit teleporter_contract_address
        sender_key subnet_info =
      do
        signed_message ← or_panic "Expect(err)" (C.parse_message warp_message_bytes)
        num_signers ← or_panic "Expect(err)" signed_message.num_signers
        gas_limit ←
            or_panic "Expect(err)"
              (calculate_receive_message_gas_limit C.add64 num_signers required_gas_limit)
        call_data ←
            or_panic "Expect(err)"
              (pack_receive_cross_chain_message C.abi 0 (C.private_key_to_address sender_key))
        fees ← calculate_tx_params subnet_info (C.private_key_to_address sender_key)
        ok (record {
          chain_id = subnet_info.evm_chain_id;
          nonce = fees.2;
          to = teleporter_contract_address;
          gas = gas_limit;
          gas_fee_cap = fees.0;
          gas_tip_cap = fees.1;
          value = pos 0;
          tx_data = call_data;
          predicate = some (C.warp_contract_address, signed_message.bytes);
        })

  -- The transaction that `CreateNativeTransferTransaction` signs.
  unfoldable pub native_transfer_tx : SubnetTestInfo → Key → Address → ℤ → Outcome DynamicFeeTx
  native_transfer_tx subnet_info from_key recipient amount = do
    fees ← calculate_tx_params subnet_info (C.private_key_to_address from_key)
    ok (record {
      chain_id = subnet_info.evm_chain_id;
      nonce = fees.2;
      to = recipient;
      gas = native_transfer_gas;
      gas_fee_cap = fees.0;
      gas_tip_cap = fees.1;
      value = amount;
      tx_data = [];
      predicate = none;
    })

  -- The constructors: the transaction, signed for the subnet's chain.
  unfoldable pub create_send_cross_chain_message_transaction :
      SubnetTestInfo → TeleporterMessageInput → Key → Address → Outcome SignedTx
  create_send_cross_chain_message_transaction source input sender_key teleporter_contract_address =
      do
        tx ← send_cross_chain_message_tx source input sender_key teleporter_contract_address
        sign_transaction tx sender_key source.evm_chain_id

  unfoldable pub create_retry_message_execution_transaction :
      SubnetTestInfo → Hash → TeleporterMessage → Key → Address → Outcome SignedTx
  create_retry_message_execution_transaction subnet_info origin_chain_id message sender_key
        teleporter_contract_address =
      do
        tx ←
            retry_message_execution_tx subnet_info origin_chain_id message sender_key
              teleporter_contract_address
        sign_transaction tx sender_key subnet_info.evm_chain_id

  unfoldable pub create_receive_cross_chain_message_transaction :
      Bytes → ℤ → Address → Key → SubnetTestInfo → Outcome SignedTx
  create_receive_cross_chain_message_transaction warp_message_bytes required_gas_limit
        teleporter_contract_address sender_key subnet_info =
      do
        tx ←
            receive_cross_chain_message_tx warp_message_bytes required_gas_limit
              teleporter_contract_address sender_key subnet_info
        sign_transaction tx sender_key subnet_info.evm_chain_id

  unfoldable pub create_native_transfer_transaction :
      SubnetTestInfo → Key → Address → ℤ → Outcome SignedTx
  create_native_transfer_transaction subnet_info from_key recipient amount = do
    tx ← native_transfer_tx subnet_info from_key recipient amount
    sign_transaction tx from_key subnet_info.evm_chain_id
