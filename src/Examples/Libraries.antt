-- ===== src/Examples/Libraries.antt =====
-- Small implementations of the packages that the program imports: the parameters of the model at work.
use teleporter.Base.{ℕ, ◌+◌, ◌^◌, refl, List, [], ◌∷◌, ◌++◌, length, drop, true, if◌then◌else◌, ltb}
use teleporter.Base.{pos, Bool, Outcome, ok, fail, new, String}
use teleporter.Base.{arith}
use text.Mathlib.Text.{◌==◌ as str_eq}
use teleporter.Text.{Text, codes}
use teleporter.Text.Hex.{decode_string, decode_string-encode_to_string}
use teleporter.Bindings.Types.{Bytes, Address, Hash, Log, TeleporterMessage}
use teleporter.Bindings.Abi.{AbiLib, Input, Argument, uint32, address}
use teleporter.Utils.Deployment.{DeployLib}
use teleporter.Utils.Deployment.ContractAddress.{big_endian, IsAddressLib}
use teleporter.Cli.{CliLib}
use teleporter.Suite.Transactions.{ChainLib}

abbrev pub sample : TeleporterMessage
sample = record {
  message_id = pos 4;
  sender_address = 0x12;
  destination_blockchain_id = 7;
  destination_address = 0x34;
  required_gas_limit = pos 100_000;
  allowed_relayer_addresses = [];
  receipts = [];
  message = 1 ∷ 2 ∷ [];
}

-- Packs one method, with a number and an address.
abbrev pub toy_pack : String → List Argument → Outcome Bytes
toy_pack method (uint32 index ∷ address reward ∷ []) =
    if str_eq method "receiveCrossChainMessage"
    then ok (index ∷ reward ∷ [])
    else fail (new "no such method")
toy_pack method _ = fail (new "no such method")

abbrev pub inputs : List Input
inputs =
    record { name = codes "ab"; indexed = true }
    ∷ record { name = codes "abc"; indexed = Bool.false }
    ∷ record { name = codes "abcd"; indexed = true }
    ∷ []

-- One topic for each input.
abbrev pub topic_fields : List Input → List Hash → List (Text × ℕ)
topic_fields (arg ∷ args) (t ∷ topics) = (arg.name, t) ∷ topic_fields args topics
topic_fields _ _ = []

abbrev pub toy_abi : AbiLib
toy_abi = record {
  AbiType = Unit {0};
  Values = TeleporterMessage;
  ContractAbi = Unit {0};
  Value = ℕ;
  new_type = λ _ _ _. ok tt;
  pack_arguments = λ _ _. ok (0x60 ∷ 0x80 ∷ []);
  unpack_arguments = λ _ _. ok sample;
  copy_arguments = λ _ m. ok m;
  get_abi = ok tt;
  pack = λ _ method args. toy_pack method args;
  pack_output = λ _ _ _. fail (new "unused");
  unpack_bool = λ _ _ _. fail (new "unused");
  event_inputs = λ _ _. inputs;
  event_by_id =
      λ _ t. if ltb t 100 then ok (codes "AddFeeAmount") else fail (new "no event with id");
  unpack_into_interface = λ _ out _ _. ok (out ++ ((codes "abc", 3) ∷ []));
  parse_topics = λ out args topics. ok (out ++ topic_fields args topics);
}

abbrev pub hash_bytes : Bytes
hash_bytes =
    9 ∷ 9 ∷ 9 ∷ 9 ∷ 9 ∷ 9 ∷ 9 ∷ 9 ∷ 9 ∷ 9 ∷ 9 ∷ 9 ∷ 0 ∷ 0 ∷ 0 ∷ 0 ∷ 0 ∷ 0 ∷ 0 ∷ 0 ∷ 0 ∷ 0 ∷ 0 ∷ 0
    ∷ 0 ∷ 0 ∷ 0 ∷ 0 ∷ 0 ∷ 0 ∷ 1 ∷ 2 ∷ []

abbrev pub number_of : Outcome Bytes → Address
number_of (ok b) = big_endian b
number_of _ = 0

abbrev pub toy_deploy : DeployLib
toy_deploy = record {
  rlp_encode = λ a n. ok (a ∷ n ∷ []);
  keccak256 = λ _. hash_bytes;
  hex_to_address = λ s. number_of (decode_string (drop 2 s));
  address_hex = λ a. a ∷ [];
  sender = λ _. ok 7;
  marshal_binary = λ _. ok (1 ∷ 2 ∷ []);
  read_file = λ _. ok (codes "{}");
  unmarshal_object = λ _. ok (codes "0x6080");
  write_file = λ _ _. ok tt;
}

pub toy_deploy-IsAddressLib : IsAddressLib toy_deploy
toy_deploy-IsAddressLib = record {
  keccak256-length = λ b. refl;
  keccak256-AreBytes = λ b. omega arith;
  hex_to_address-encode = λ b bytes n. rw (decode_string-encode_to_string b bytes);
}

-- A receipt with a log of each contract and one of a third.
abbrev pub teleporter_log : Log
teleporter_log = record { address = 0x70; topics = 1 ∷ 2 ∷ 4 ∷ []; log_data = 3 ∷ []; tx_hash = 5 }

abbrev pub other_log : Log
other_log = record { address = 0x99; topics = []; log_data = []; tx_hash = 5 }

abbrev pub bad_log : Log
bad_log = record { address = 0x70; topics = 100 ∷ []; log_data = []; tx_hash = 5 }

abbrev pub warp_log : Log
warp_log = record { address = 0; topics = []; log_data = 1 ∷ []; tx_hash = 5 }

abbrev pub receipt_logs : Hash → List Log
receipt_logs h =
    if ltb h 10
    then teleporter_log ∷ other_log ∷ warp_log ∷ []
    else teleporter_log ∷ bad_log ∷ warp_log ∷ []

abbrev pub toy_cli : CliLib
toy_cli = record {
  abi = toy_abi;
  Level = ℕ;
  to_level = λ s. ok (length s);
  info_lower_string = codes "info";
  Client = Unit {0};
  dial = λ _. ok tt;
  transaction_receipt = λ _ h. ok (receipt_logs h);
  hex_to_hash = λ s. length s;
  hex_to_address = λ _. 0;
  unpack_send_warp_event_data = λ d. ok (record { id = 3; payload = d });
  parse_addressed_call = λ d. ok d;
  beyond = λ c. c;
}

abbrev pub toy_add64 : ℕ → ℕ → Outcome ℕ
toy_add64 a b = if ltb (a + b) (2 ^ 64) then ok (a + b) else fail (new "overflow")

abbrev pub toy_chain : ChainLib
toy_chain = record {
  abi = toy_abi;
  Client = Unit {0};
  Key = ℕ;
  SignedTx = ℕ;
  estimate_base_fee = λ _. ok 25;
  suggest_gas_tip_cap = λ _. ok (pos 1);
  nonce_at = λ _ a. ok (a + 1);
  private_key_to_address = λ k. k;
  sign_tx = λ tx _ key. ok (tx.gas + key);
  parse_message = λ b. ok (record { num_signers = ok (pos 5); bytes = b });
  warp_contract_address = 5;
  add64 = toy_add64;
}
