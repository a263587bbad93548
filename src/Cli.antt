-- ===== src/Cli.antt =====
-- cmd/teleporter-cli/: the commands, over a parameter for cobra's surroundings: the logging levels, the RPC
-- client and the Warp packages. A command returns the calls of its loggers and printers beside its result.
pub mod Root
pub mod Message
pub mod EventCommand
pub mod Transaction
use teleporter.Base.{ℕ, ℤ, List, [], ◌∷◌, ◌++◌, String, Outcome, ok, fail, panic, GoError}
use teleporter.Text.{Text}
use teleporter.Bindings.Types.{Bytes, Address, Hash, Log, TeleporterMessage}
use teleporter.Bindings.Filter.{EventStruct}
use teleporter.Bindings.Abi.{AbiLib}

-- What a command tells: one constructor for each call of `logger` and `cmd.Println` in the source.
pub data Line (Value : Type 0) : Type 0 where
  message_unpacked : TeleporterMessage → Line Value
  message_ran : Line Value
  parsed_event : Text → EventStruct → List (Text × Value) → Line Value
  event_ran : Text → Line Value
  processing_teleporter_log : Log → Line Value
  processing_warp_log : Log → Line Value
  parsed_message : Hash → TeleporterMessage → Line Value
  transaction_ran : Line Value

-- A result `fail e` is `cobra.CheckErr(e)`, which exits; the lines are those told before it.
abbrev pub Told : Type 0 → Type 0 → Type 0
Told Value A = List (Line Value) × Outcome A

abbrev pub after_lines : {Value A : Type 0} → List (Line Value) → Told Value A → Told Value A
after_lines lines (more, o) = (lines ++ more, o)

infixl 5 ◌>>=◌ ◌>>◌
abbrev pub ◌>>=◌ : {Value A B : Type 0} → Told Value A → (A → Told Value B) → Told Value B
(lines, ok a) >>= f = after_lines lines (f a)
(lines, fail e) >>= f = (lines, fail e)
(lines, panic e) >>= f = (lines, panic e)

abbrev pub ◌>>◌ : {Value B : Type 0} → Told Value (Unit {0}) → Told Value B → Told Value B
m >> k = m >>= λ _. k

abbrev pub tell : {Value : Type 0} → Line Value → Told Value (Unit {0})
tell line = (line ∷ [], ok tt)

-- `cobra.CheckErr`
abbrev pub check_err : {Value A : Type 0} → Outcome A → Told Value A
check_err o = ([], o)

-- `warp.UnpackSendWarpEventDataToMessage`'s result, as far as the command reads it.
pub record UnsignedMessage : Type 0 where
  pub id : Hash
  pub payload : Bytes

pub record CliLib : Type 1 where
  pub abi : AbiLib
  -- `logging.Level`, `logging.ToLevel`, `logging.Info.LowerString()`
  pub Level : Type 0
  pub to_level : Text → Outcome Level
  pub info_lower_string : Text
  -- `ethclient.Client`, `ethclient.Dial`, `TransactionReceipt(...).Logs`
  pub Client : Type 0
  pub dial : Text → Outcome Client
  pub transaction_receipt : Client → Hash → Outcome (List Log)
  -- `common.HexToHash`, `common.HexToAddress`
  pub hex_to_hash : Text → Hash
  pub hex_to_address : Text → Address
  pub unpack_send_warp_event_data : Bytes → Outcome UnsignedMessage
  -- `warpPayload.ParseAddressedCall(...).Payload`
  pub parse_addressed_call : Bytes → Outcome Bytes
  -- the cases of `strings.ToLower` from code point 128 on
  pub beyond : ℕ → ℕ
