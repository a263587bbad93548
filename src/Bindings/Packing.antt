-- ===== src/Bindings/Packing.antt =====
-- abi-bindings/go/Teleporter/TeleporterMessenger/packing.go, over the parameter `AbiLib`.
pub mod Recover
use teleporter.Base.{ℕ, ℤ, List, [], ◌∷◌, Bool, true, false, String, if◌then◌else◌}
use teleporter.Base.{Outcome, ok, fail, panic, new, ◌>>=◌, wrapping, or_panic}
use teleporter.Text.{Text}
use teleporter.Bindings.Types.{Bytes, Address, Hash, TeleporterMessage, TeleporterMessageInput}
use teleporter.Bindings.Abi.{
  AbiLib, Marshaling, leaf, end, component, tuple, Input, Argument, message_input, whole_message,
  identifier, uint32, address, big_int, boolean,
}

-- The components that `init` lists for the tuple type of a message.
abbrev pub message_components : Marshaling
message_components = component (leaf "messageID" "uint256") (
    component (leaf "senderAddress" "address") (
      component (leaf "destinationBlockchainID" "bytes32") (
        component (leaf "destinationAddress" "address") (
          component (leaf "requiredGasLimit" "uint256") (
            component (leaf "allowedRelayerAddresses" "address[]") (
              component
                (tuple "receipts" "tuple[]" (
                  component (leaf "receivedMessageID" "uint256")
                    (component (leaf "relayerRewardAddress" "address") end)))
                (component (leaf "message" "bytes") end)))))))

-- The inputs that are indexed, in order: the loop of `UnpackEvent`.
unfoldable pub indexed_inputs : List Input → List Input
indexed_inputs [] = []
indexed_inputs (arg ∷ inputs) =
    let rest = indexed_inputs inputs in if arg.indexed then arg ∷ rest else rest

module _ (L : AbiLib) where
  open L use {AbiType, Value}

  -- `init`: the value of `teleporterMessageType`, or a panic.
  unfoldable pub teleporter_message_type : Outcome AbiType
  teleporter_message_type =
      or_panic "failed to create TeleporterMessage ABI type"
        (L.new_type "tuple" "struct Overloader.F" message_components)

  -- The one argument with which a message is packed and unpacked.
  abbrev pub message_arguments : AbiType → List (String × AbiType)
  message_arguments t = ("teleporterMessage", t) ∷ []

  unfoldable pub pack_teleporter_message : AbiType → TeleporterMessage → Outcome Bytes
  pack_teleporter_message t message = L.pack_arguments (message_arguments t) message

  unfoldable pub unpack_teleporter_message : AbiType → Bytes → Outcome TeleporterMessage
  unpack_teleporter_message t message_bytes = do
    unpacked ←
        wrapping "failed to unpack to teleporter message with err"
          (L.unpack_arguments (message_arguments t) message_bytes)
    L.copy_arguments (message_arguments t) unpacked

  unfoldable pub pack_send_cross_chain_message : TeleporterMessageInput → Outcome Bytes
  pack_send_cross_chain_message input = do
    abi ← wrapping "failed to get abi" L.get_abi
    L.pack abi "sendCrossChainMessage" (message_input input ∷ [])

  unfoldable pub pack_retry_message_execution : Hash → TeleporterMessage → Outcome Bytes
  pack_retry_message_execution origin_chain_id message = do
    abi ← wrapping "failed to get abi" L.get_abi
    L.pack abi "retryMessageExecution" (identifier origin_chain_id ∷ whole_message message ∷ [])

  unfoldable pub pack_receive_cross_chain_message : ℕ → Address → Outcome Bytes
  pack_receive_cross_chain_message message_index relayer_reward_address = do
    abi ← wrapping "failed to get abi" L.get_abi
    L.pack abi "receiveCrossChainMessage"
        (uint32 message_index ∷ address relayer_reward_address ∷ [])

  unfoldable pub pack_message_received : Hash → ℤ → Outcome Bytes
  pack_message_received origin_chain_id message_id = do
    abi ← wrapping "failed to get abi" L.get_abi
    L.pack abi "messageReceived" (identifier origin_chain_id ∷ big_int message_id ∷ [])

  unfoldable pub unpack_message_received_result : Bytes → Outcome Bool
  unpack_message_received_result result = do
    abi ← wrapping "failed to get abi" L.get_abi
    L.unpack_bool abi "messageReceived" result

  unfoldable pub pack_message_received_output : Bool → Outcome Bytes
  pack_message_received_output success = do
    abi ← wrapping "failed to get abi" L.get_abi
    L.pack_output abi "messageReceived" (boolean success ∷ [])

  -- `if len(data) > 0 { … }` of `UnpackEvent`
  unpack_data : L.ContractAbi → List (Text × Value) → Text → Bytes → Outcome (List (Text × Value))
  unpack_data abi out event [] = ok out
  unpack_data abi out event (b ∷ bs) = L.unpack_into_interface abi out event (b ∷ bs)

  -- `topics[1:]` panics on an empty slice.
  unfoldable pub topics_from_1 : List Hash → Outcome (List Hash)
  topics_from_1 [] = panic (new "slice bounds out of range [1:0]")
  topics_from_1 (t ∷ topics) = ok topics

  -- `UnpackEvent`: `out` is given and returned as the fields set so far.
  unfoldable pub unpack_event :
      List (Text × Value) → Text → List Hash → Bytes → Outcome (List (Text × Value))
  unfolding unpack_data topics_from_1
  unpack_event out event topics log_data = do
    abi ← wrapping "failed to get abi" L.get_abi
    out ← unpack_data abi out event log_data
    rest ← topics_from_1 topics
    L.parse_topics out (indexed_inputs (L.event_inputs abi event)) rest
