-- ===== src/Bindings/Abi.antt =====
-- What the binding calls of the package accounts/abi of subnet-evm, which the repository only
-- imports: a parameter of the model, with no law here.
use teleporter.Base.{ℕ, ℤ, Bool, List, Outcome, String}
use teleporter.Text.{Text}
use teleporter.Bindings.Types.{
  Bytes, Address, Hash, TeleporterMessage, TeleporterMessageInput, TeleporterFeeInfo,
  ProtocolRegistryEntry,
}

-- `abi.ArgumentMarshaling`: the name and type of a component, and the components of a tuple.
pub data Marshaling : Type 0 where
  leaf : String → String → Marshaling
  end : Marshaling
  component : Marshaling → Marshaling → Marshaling
  tuple : String → String → Marshaling → Marshaling

-- `abi.Argument`, as far as `UnpackEvent` reads it.
pub record Input : Type 0 where
  pub name : Text
  pub indexed : Bool

-- The arguments that the bindings pass on as `interface{}`.
pub data Argument : Type 0 where
  message_input : TeleporterMessageInput → Argument
  whole_message : TeleporterMessage → Argument
  identifier : Hash → Argument
  uint32 : ℕ → Argument
  address : Address → Argument
  big_int : ℤ → Argument
  boolean : Bool → Argument
  fee_info : TeleporterFeeInfo → Argument
  addresses : List Address → Argument
  big_ints : List ℤ → Argument
  registry_entries : List ProtocolRegistryEntry → Argument
  text_argument : Text → Argument
  bytes_argument : Bytes → Argument

pub record AbiLib : Type 1 where
  -- `abi.Type`, the `[]interface{}` that `Unpack` returns, and `abi.ABI`
  pub AbiType : Type 0
  pub Values : Type 0
  pub ContractAbi : Type 0
  -- the value of one field of an event struct
  pub Value : Type 0
  pub new_type : String → String → Marshaling → Outcome AbiType
  pub pack_arguments : List (String × AbiType) → TeleporterMessage → Outcome Bytes
  pub unpack_arguments : List (String × AbiType) → Bytes → Outcome Values
  pub copy_arguments : List (String × AbiType) → Values → Outcome TeleporterMessage
  -- `TeleporterMessengerMetaData.GetAbi()`
  pub get_abi : Outcome ContractAbi
  pub pack : ContractAbi → String → List Argument → Outcome Bytes
  pub pack_output : ContractAbi → String → List Argument → Outcome Bytes
  pub unpack_bool : ContractAbi → String → Bytes → Outcome Bool
  -- `Events[event].Inputs`, empty for a name that the map lacks, and `EventByID(topic).Name`
  pub event_inputs : ContractAbi → Text → List Input
  pub event_by_id : ContractAbi → Hash → Outcome Text
  -- the two calls that fill an event struct, given and returned as its fields set so far
  pub unpack_into_interface :
      ContractAbi → List (Text × Value) → Text → Bytes → Outcome (List (Text × Value))
  pub parse_topics : List (Text × Value) → List Input → List Hash → Outcome (List (Text × Value))
