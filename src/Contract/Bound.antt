-- ===== src/Contract/Bound.antt =====
-- The packages bind, interfaces and event of subnet-evm, which the generated bindings only import: a parameter of
-- the model, with no law here.
use teleporter.Base.{ℕ, zero, suc, ℤ, Bool, String, List, [], ◌∷◌, Option, none, some}
use teleporter.Base.{Outcome, ok, panic, GoError, new}
use teleporter.Bindings.Types.{
  Bytes, Address, Hash, Log, TeleporterFeeInfo, TeleporterMessageReceipt,
}
use teleporter.Bindings.Abi.{Argument}
use teleporter.Text.{Text}

pub record BindLib : Type 1 where
  -- a chain's client, `*abi.ABI`, `*bind.BoundContract`, and the options of each kind of call
  pub Backend : Type 0
  pub ContractAbi : Type 0
  pub BoundContract : Type 0
  pub CallOpts : Type 0
  pub TransactOpts : Type 0
  pub FilterOpts : Type 0
  pub WatchOpts : Type 0
  pub SignedTx : Type 0
  -- a channel of logs and the subscription that feeds it
  pub LogChannel : Type 0
  pub Subscription : Type 0
  -- a decoded value, as `interface{}`
  pub Any : Type 0
  pub new_bound_contract :
      Address → ContractAbi → Option Backend → Option Backend → Option Backend → BoundContract
  pub deploy_contract :
      TransactOpts
      → ContractAbi
      → Bytes
      → Backend
      → List Argument
      → Outcome (Address × SignedTx × BoundContract)
  -- the methods of a bound contract
  pub call : BoundContract → CallOpts → String → List Argument → Outcome (List Any)
  pub transact : BoundContract → TransactOpts → String → List Argument → Outcome SignedTx
  pub transfer : BoundContract → TransactOpts → Outcome SignedTx
  pub filter_logs :
      BoundContract
      → FilterOpts
      → String
      → List (List Argument)
      → Outcome (LogChannel × Subscription)
  pub watch_logs :
      BoundContract
      → WatchOpts
      → String
      → List (List Argument)
      → Outcome (LogChannel × Subscription)
  -- `*abi.ConvertType(value, new(T)).(*T)`, which panics at a value of another type
  pub to_address : Any → Outcome Address
  pub to_big_int : Any → Outcome ℤ
  pub to_hash : Any → Outcome Hash
  pub to_bool : Any → Outcome Bool
  pub to_receipt : Any → Outcome TeleporterMessageReceipt
  pub to_fee_info : Any → Outcome TeleporterFeeInfo
  pub to_text : Any → Outcome Text

-- `new(T)` for the struct T of an event, and `UnpackLog` into it, which may fill it in part and fail.
pub record Unpacker (B : BindLib) (Event : Type 0) : Type 0 where
  pub new_event : Event
  pub unpack_log : B.BoundContract → Event → String → Log → Event × Option GoError

-- `bind.MetaData`: the parsed ABI, which may be nil, and the code of the contract.
pub record MetaData (B : BindLib) : Type 0 where
  pub get_abi : Outcome (Option B.ContractAbi)
  pub bin : Bytes

-- `out[i]`
unfoldable pub out_at {ℓ} : {A : Type ℓ} → List A → ℕ → Outcome A
out_at [] i = panic (new "index out of range")
out_at (x ∷ xs) zero = ok x
out_at (x ∷ xs) (suc i) = out_at xs i

-- `*p`
unfoldable pub deref {ℓ} : {A : Type ℓ} → Option A → Outcome A
deref none = panic (new "invalid memory address or nil pointer dereference")
deref (some a) = ok a
