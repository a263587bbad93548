-- ===== src/Cli/Message/Laws.antt =====
-- cmd/teleporter-cli/message.go: the command undoes the packing of a message.
use teleporter.Base.{◌≡◌, [], ◌∷◌, ok}
use teleporter.Text.Hex.{encode_to_string, AreBytes, decode_string-encode_to_string}
use teleporter.Bindings.Types.{Bytes, TeleporterMessage}
use teleporter.Bindings.Packing.{
  pack_teleporter_message, unpack_teleporter_message, message_arguments,
}
use teleporter.Cli.{CliLib, message_unpacked, message_ran}
use teleporter.Cli.Message.{message_run}

module _ (C : CliLib) where
  -- At a message, `Unpack` undoes `Pack`, and `Copy` moves the values into the fields of a struct.
  abbrev pub IsMessageCodec : C.abi.AbiType → TeleporterMessage → Type 0
  IsMessageCodec t m =
      (b : Bytes)
      → C.abi.pack_arguments (message_arguments C.abi t) m ≡ ok b
      → AreBytes b
        × (v : C.abi.Values) × (C.abi.unpack_arguments (message_arguments C.abi t) b ≡ ok v)
        × (C.abi.copy_arguments (message_arguments C.abi t) v ≡ ok m)

  -- Given the bytes of a packed message in hexadecimal, the command tells that message and that it ran.
  pub message_run-pack :
      (t : C.abi.AbiType) (m : TeleporterMessage) (b : Bytes)
      → IsMessageCodec t m
      → pack_teleporter_message C.abi t m ≡ ok b
      → message_run C t (encode_to_string b) ≡ (message_unpacked m ∷ message_ran ∷ [], ok tt)
  unfolding message_run pack_teleporter_message unpack_teleporter_message
  message_run-pack t m b codec packed =
      let (bytes, v, unpacked, copied) = codec b packed in
      rw (decode_string-encode_to_string b bytes) (rw (unpacked, copied))
