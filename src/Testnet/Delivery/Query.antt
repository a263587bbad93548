-- ===== src/Testnet/Delivery/Query.antt =====
-- tests/testnet/network.go: the log that `getMessageDeliveryTransactionReceipt` looks for, on a chain.
use teleporter.Base.{
  ℕ, ◌+◌, ◌<◌, ◌^◌, ◌==◌, leb, ◌≡◌, refl, ◌↔◌, Bool, true, false, ◌&&◌, ◌||◌, List, [], ◌∷◌,
  if◌then◌else◌, arith,
}
use teleporter.Base.{ℤ, pos, negsuc, to_int64, ok, ◌>>=◌}
use teleporter.Bindings.Types.{Address, Hash, Log}
use teleporter.Suite.Wait.{Receipt}
use teleporter.Testnet.{TestnetLib, SubnetInfo, TestNetwork, FilterQuery}
use teleporter.Testnet.Delivery.{
  receive_cross_chain_message_event_name, start_block, big_to_hash, only_log, delivery_query,
  find_delivery,
}

-- A log with the number of its block.
abbrev pub Mined : Type 0
Mined = ℕ × Log

one_of : List ℕ → ℕ → Bool
one_of [] x = false
one_of (y ∷ ys) x = x == y || one_of ys x

-- An empty list of addresses, or of topics at a position of the query, takes any.
alternatives : List Hash → Hash → Bool
unfolding one_of
alternatives [] topic = true
alternatives (t ∷ ts) topic = one_of (t ∷ ts) topic

topics_match : List (List Hash) → List Hash → Bool
unfolding alternatives
topics_match [] topics = true
topics_match (ts ∷ query) [] = false
topics_match (ts ∷ query) (topic ∷ topics) = alternatives ts topic && topics_match query topics

from_block_on : ℤ → ℕ → Bool
from_block_on (pos n) block = leb n block
from_block_on (negsuc n) block = true

kept : (Mined → Bool) → List Mined → List Log
kept test [] = []
kept test (mined ∷ chain) =
    let rest = kept test chain in if test mined then mined.1 ∷ rest else rest

-- What `eth_getLogs` documents: the logs from that block on, of one of the addresses or of any if none is named, whose
-- topics begin as the query says.
unfoldable pub matching : FilterQuery → List Mined → List Log
unfolding one_of alternatives topics_match from_block_on kept
matching query chain =
    kept
      (λ mined.
        from_block_on query.from_block mined.0
        && alternatives query.addresses mined.1.address
        && topics_match query.topics mined.1.topics)
      chain

-- The topics begin with these three.
unfoldable pub begins : Hash → Hash → Hash → List Hash → Bool
begins a b c (x ∷ y ∷ z ∷ topics) = x == a && (y == b && z == c)
begins a b c _ = false

-- The deliveries of a message in a block whose number is at least that height less 500: the block at the height, the
-- 500 blocks before it, and any that the chain has behind it by the time of the query.
unfoldable pub deliveries_from : ℕ → Address → Hash → Hash → Hash → List Mined → List Log
unfolding kept begins
deliveries_from height contract_address event source_blockchain_id message chain =
    kept
      (λ mined.
        leb height (mined.0 + 500)
        && (mined.1.address == contract_address)
        && begins event source_blockchain_id message mined.1.topics)
      chain

kept-congr :
    (p q : Mined → Bool)
    → ((m : Mined) → p m ≡ q m)
    → (chain : List Mined) → kept p chain ≡ kept q chain
unfolding kept
kept-congr p q h [] = refl
kept-congr p q h (m ∷ chain) = rw (h m, kept-congr p q h chain)

from_block-start_block :
    (height block : ℕ)
    → height < 2 ^ 63
    → from_block_on (to_int64 (start_block height)) block ≡ leb height (block + 500)
unfolding from_block_on start_block
from_block-start_block height block h = ground arith

or_false : (b : Bool) → (b || false) ≡ b
or_false true = refl
or_false false = refl

and_true : (b : Bool) → (b && true) ≡ b
and_true true = refl
and_true false = refl

topics_match-begins :
    (a b c : Hash) (topics : List Hash)
    → topics_match ((a ∷ []) ∷ (b ∷ []) ∷ (c ∷ []) ∷ []) topics ≡ begins a b c topics
unfolding topics_match alternatives one_of begins
topics_match-begins a b c [] = refl
topics_match-begins a b c (x ∷ []) = ground arith
topics_match-begins a b c (x ∷ y ∷ []) = ground arith
topics_match-begins a b c (x ∷ y ∷ z ∷ topics) =
    rw (or_false (x == a), or_false (y == b), or_false (z == c), and_true (z == c))

module _ (T : TestnetLib) where
  matching-deliveries_from :
      (abi : T.ContractAbi) (contract_address : Address) (source : Hash) (id : ℤ) (height : ℕ)
      → height < 2 ^ 63
      → (chain : List Mined)
      → matching (delivery_query T abi contract_address source id height) chain
        ≡ deliveries_from height contract_address
            (T.event_id abi receive_cross_chain_message_event_name)
            source
            (big_to_hash id)
            chain
  unfolding matching deliveries_from delivery_query alternatives one_of
  matching-deliveries_from abi contract_address source id height h = kept-congr _ _ λ m. rw (
    from_block-start_block height m.0 h,
    or_false (m.1.address == contract_address),
    topics_match-begins (T.event_id abi receive_cross_chain_message_event_name) source
        (big_to_hash id) m.1.topics,
  )

  only_log_iff :
      (client : T.Client) (receipt : Receipt) (logs : List Log)
      → ((only_log logs >>= λ log. T.transaction_receipt client log.tx_hash) ≡ ok receipt) ↔ (
          (log : Log) × (logs ≡ log ∷ []) × (T.transaction_receipt client log.tx_hash ≡ ok receipt))
  unfolding only_log
  only_log_iff client receipt [] = ((λ h. cc), λ h. cc (h.1))
  only_log_iff client receipt (log ∷ []) = ((λ h. (log, refl, h)), λ (log', e, h). cc)
  only_log_iff client receipt (log ∷ other ∷ logs) = ((λ h. cc), λ h. cc (h.1))

  -- The log query answered as documented, the rest of the search is on those deliveries.
  find_delivery_lem :
      (network : TestNetwork T) (source : Hash) (destination : SubnetInfo T) (id : ℤ)
      (chain : List Mined) (height : ℕ) (abi : T.ContractAbi)
      → height < 2 ^ 63
      → T.block_number destination.rpc_client ≡ ok height
      → T.get_abi ≡ ok abi
      → ((query : FilterQuery)
          → T.filter_logs destination.rpc_client query ≡ ok (matching query chain))
      → find_delivery T network source destination id ≡ (
          only_log (
            deliveries_from height network.teleporter_contract_address
              (T.event_id abi receive_cross_chain_message_event_name)
              source
              (big_to_hash id)
              chain)
          >>= λ log. T.transaction_receipt destination.rpc_client log.tx_hash)
  unfolding find_delivery
  find_delivery_lem network source destination id chain height abi h at_height has_abi answers =
      simp (
        at_height,
        has_abi,
        answers,
        matching-deliveries_from abi network.teleporter_contract_address source id height h chain,
      )

  -- If the client gives a height below 2^63 and answers a log query as documented, the receipt that is found is that of
  -- the one log that delivers the message in the blocks from the height less 500 on, later ones included: one is found
  -- exactly if there is one such log, no other, and the client has its transaction's receipt.
  pub find_delivery_iff :
      (network : TestNetwork T) (source : Hash) (destination : SubnetInfo T) (id : ℤ)
      (chain : List Mined) (height : ℕ) (abi : T.ContractAbi)
      → height < 2 ^ 63
      → T.block_number destination.rpc_client ≡ ok height
      → T.get_abi ≡ ok abi
      → ((query : FilterQuery)
          → T.filter_logs destination.rpc_client query ≡ ok (matching query chain))
      → (receipt : Receipt)
      → (find_delivery T network source destination id ≡ ok receipt) ↔ (
          (log : Log) × (deliveries_from height network.teleporter_contract_address
              (T.event_id abi receive_cross_chain_message_event_name)
              source
              (big_to_hash id)
              chain
            ≡ log ∷ [])
          × (T.transaction_receipt destination.rpc_client log.tx_hash ≡ ok receipt))
  find_delivery_iff network source destination id chain height abi h at_height has_abi answers
        receipt =
      rw
        (find_delivery_lem network source destination id chain height abi h at_height has_abi
          answers)
        (only_log_iff destination.rpc_client receipt _)
