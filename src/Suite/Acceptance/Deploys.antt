-- ===== src/Suite/Acceptance/Deploys.antt =====
-- The helpers of tests/utils/utils.go that deploy a contract with the function `Deploy…` of its generated binding.
use teleporter.Base.{◌*◌, ◌^◌}
use teleporter.Base.{ℤ, pos, eqb, Outcome, ok, ◌>>=◌, ◌>>◌, or_panic, expect}
use teleporter.Bindings.Types.{Address, Hash}
use teleporter.Suite.Acceptance.{AcceptLib, AcceptingSubnet, wait_successful}

abbrev pub expected_example_erc20_deployer_balance : ℤ
expected_example_erc20_deployer_balance = pos (10 ^ 18 * 10 ^ 10)

module _ (C : AcceptLib) where
  open C use {World, Client, Key, Opts, SignedTx, Token}

  -- A `Deploy…` function, given all but the transaction's options and the client.
  abbrev pub Deploy : Type 0 → Type 0
  Deploy Contract = Opts → Client → World → Outcome ((Address × SignedTx × Contract) × World)

  -- What the helpers have in common.
  unfoldable pub deploy_and_wait :
      {Contract : Type 0}
      → Deploy Contract
      → Key
      → AcceptingSubnet C
      → World
      → Outcome ((Address × Contract) × World)
  deploy_and_wait deploy sender_key subnet w = do
    opts ←
        or_panic "Expect(err)" (C.new_keyed_transactor_with_chain_id sender_key subnet.evm_chain_id)
    deployed ← or_panic "Expect(err)" (deploy opts subnet.rpc_client w)
    mined ← wait_successful C subnet.rpc_client deployed.0.1 deployed.1
    ok ((deployed.0.0, deployed.0.2), mined.1)

  unfoldable pub deploy_example_erc20 :
      Deploy Token → Key → AcceptingSubnet C → World → Outcome ((Address × Token) × World)
  deploy_example_erc20 deploy sender_key source w = do
    deployed ← deploy_and_wait deploy sender_key source w
    balance ←
        or_panic "Expect(err)" (C.balance_of deployed.0.1 (C.key_address sender_key) deployed.1)
    expect (eqb balance expected_example_erc20_deployer_balance) "Expect(balance)"
    ok deployed

  -- The contracts that are given the address of the subnet's registry.
  module _ {Contract : Type 0} (deploy : Address → Deploy Contract) where
    unfoldable pub deploy_example_cross_chain_messenger :
        Key → AcceptingSubnet C → World → Outcome ((Address × Contract) × World)
    deploy_example_cross_chain_messenger sender_key subnet w =
        deploy_and_wait (deploy subnet.teleporter_registry_address) sender_key subnet w

    unfoldable pub deploy_erc20_bridge :
        Key → AcceptingSubnet C → World → Outcome ((Address × Contract) × World)
    deploy_erc20_bridge sender_key source w =
        deploy_and_wait (deploy source.teleporter_registry_address) sender_key source w

    unfoldable pub deploy_block_hash_publisher :
        Key → AcceptingSubnet C → World → Outcome ((Address × Contract) × World)
    deploy_block_hash_publisher sender_key subnet w =
        deploy_and_wait (deploy subnet.teleporter_registry_address) sender_key subnet w

  unfoldable pub deploy_block_hash_receiver :
      {Contract : Type 0}
      → (Address → Hash → Address → Deploy Contract)
      → Key
      → AcceptingSubnet C
      → Address
      → Hash
      → World
      → Outcome ((Address × Contract) × World)
  deploy_block_hash_receiver deploy sender_key subnet publisher_address publisher_chain_id w =
      deploy_and_wait
        (deploy subnet.teleporter_registry_address publisher_chain_id publisher_address) sender_key
        subnet w
