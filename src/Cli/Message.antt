-- ===== src/Cli/Message.antt =====
-- cmd/teleporter-cli/message.go
pub mod Laws
use teleporter.Base.{List, [], ◌∷◌, Outcome, ok, fail, panic}
use teleporter.Text.{Text}
use teleporter.Text.Hex.{decode_string}
use teleporter.Bindings.Packing.{unpack_teleporter_message}
use teleporter.Cli.{CliLib, Line, Told, tell, check_err, message_unpacked, message_ran, ◌>>=◌, ◌>>◌}

module _ (C : CliLib) where
  -- `messageCmd.Run`, given the one argument that `cobra.ExactArgs(1)` lets through.
  unfoldable pub message_run : C.abi.AbiType → Text → Told C.abi.Value (Unit {0})
  message_run message_type encoded_msg = do
    b ← check_err (decode_string encoded_msg)
    msg ← check_err (unpack_teleporter_message C.abi message_type b)
    tell (message_unpacked msg)
    tell message_ran
