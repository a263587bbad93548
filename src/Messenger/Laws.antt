-- ===== src/Messenger/Laws.antt =====
-- abi-bindings/go/Teleporter/TeleporterMessenger: the generated binding and the packing of packing.go, side by side.
use teleporter.Base.{
  ℤ, ℕ, ◌≡◌, sym, ap, ◌∙◌, String, List, [], ◌∷◌, Option, some, Outcome, ok, wrapping, ◌>>=◌,
  >>=-ok, >>=-assoc,
}
use teleporter.Bindings.Types.{Bytes, Address, Hash, TeleporterMessage, TeleporterMessageInput}
use teleporter.Bindings.Abi.{AbiLib, Argument, identifier, big_int}
use teleporter.Bindings.Packing.{
  pack_send_cross_chain_message, pack_retry_message_execution, pack_receive_cross_chain_message,
  pack_message_received, unpack_message_received_result,
}
use teleporter.Contract.Bound.{BindLib, MetaData, out_at, deref}
use teleporter.Messenger.Binding.{new_teleporter_messenger, bind_teleporter_messenger, whole}
use teleporter.Messenger.Caller.{message_received}
use teleporter.Messenger.Transactor.{
  send_cross_chain_message, retry_message_execution, receive_cross_chain_message,
}

module _ (L : AbiLib) (B : BindLib) (meta : MetaData B) (bound_abi : B.ContractAbi)
    (abi : L.ContractAbi)
    -- the parsed ABI, of either package, is there
    (bound_parsed : meta.get_abi ≡ ok (some bound_abi)) (parsed : L.get_abi ≡ ok abi) where
  made :
      (addr : Address) (backend : B.Backend)
      → new_teleporter_messenger B meta addr backend
        ≡ ok (
            whole B
              (B.new_bound_contract addr bound_abi (some backend) (some backend) (some backend)))
  unfolding new_teleporter_messenger bind_teleporter_messenger deref
  made addr backend = rw bound_parsed

  -- `BoundContract.Transact` packs the call with the ABI of the contract and submits it to its address.
  module _ (submit : Address → Option B.Backend → B.TransactOpts → Bytes → Outcome B.SignedTx)
      (transact-packs : (addr : Address) (caller transactor filterer : Option B.Backend)
          (opts : B.TransactOpts) (method : String) (params : List Argument)
        → B.transact
            (B.new_bound_contract addr bound_abi caller transactor filterer)
            opts
            method
            params
          ≡ (L.pack abi method params >>= submit addr transactor opts)) where
    -- The methods of the binding for the calls that packing.go packs submit what it packs, to the address and by the
    -- backend that the binding was made with, and an error of the packing is theirs.
    pub binding_sends_packed :
        (addr : Address) (backend : B.Backend) (opts : B.TransactOpts)
        → ((input : TeleporterMessageInput)
            → (new_teleporter_messenger B meta addr backend >>= λ m.
                send_cross_chain_message B m.transactor opts input)
              ≡ (pack_send_cross_chain_message L input >>= submit addr (some backend) opts))
          × ((id : Hash) (message : TeleporterMessage)
              → (new_teleporter_messenger B meta addr backend >>= λ m.
                  retry_message_execution B m.transactor opts id message)
                ≡ (pack_retry_message_execution L id message >>= submit addr (some backend) opts))
          × ((index : ℕ) (reward : Address)
              → (new_teleporter_messenger B meta addr backend >>= λ m.
                  receive_cross_chain_message B m.transactor opts index reward)
                ≡ (pack_receive_cross_chain_message L index reward
                    >>= submit addr (some backend) opts))
    unfolding whole send_cross_chain_message retry_message_execution receive_cross_chain_message
        pack_send_cross_chain_message pack_retry_message_execution pack_receive_cross_chain_message
    binding_sends_packed addr backend opts = (
      λ input. rw (made addr backend, parsed, transact-packs addr),
      λ id message. rw (made addr backend, parsed, transact-packs addr),
      λ index reward. rw (made addr backend, parsed, transact-packs addr),
    )

  -- `BoundContract.Call` packs the call, asks the contract and decodes the values that come back; messageReceived
  -- has one output, a Boolean, which `UnpackIntoInterface` decodes in the same way and copies to the variable.
  module _ (view : Address → Option B.Backend → B.CallOpts → Bytes → Outcome Bytes)
      (decode : String → Bytes → Outcome (List B.Any))
      (call-packs : (addr : Address) (caller transactor filterer : Option B.Backend)
          (opts : B.CallOpts) (method : String) (params : List Argument)
        → B.call (B.new_bound_contract addr bound_abi caller transactor filterer) opts method params
          ≡ (L.pack abi method params >>= view addr caller opts >>= decode method))
      (unpacks-first : (result : Bytes)
        → L.unpack_bool abi "messageReceived" result
          ≡ (decode "messageReceived" result >>= λ out. out_at out 0 >>= B.to_bool)) where
    abbrev packed : Hash → ℤ → Outcome Bytes
    packed id message_id = L.pack abi "messageReceived" (identifier id ∷ big_int message_id ∷ [])

    -- The first value, converted and returned, is what packing.go unpacks.
    unpacked :
        (result : Bytes)
        → (decode "messageReceived" result >>= λ out.
            out_at out 0 >>= λ v. B.to_bool v >>= λ b. ok b)
          ≡ unpack_message_received_result L result
    unfolding unpack_message_received_result
    unpacked result =
        (λ i.
          decode "messageReceived" result >>= λ out. out_at out 0 >>= λ v. >>=-ok (B.to_bool v) i)
        ∙ sym (unpacks-first result)
        ∙ ap
            (λ a.
              wrapping "failed to get abi" a >>= λ abi. L.unpack_bool abi "messageReceived" result)
            (sym parsed)

    -- `MessageReceived` of the binding is the call of what packing.go packs for it, with the result unpacked by packing.go,
    -- errors included.
    pub binding_views_packed :
        (addr : Address) (backend : B.Backend) (opts : B.CallOpts) (id : Hash) (message_id : ℤ)
        → (new_teleporter_messenger B meta addr backend >>= λ m.
            message_received B m.caller opts id message_id)
          ≡ (pack_message_received L id message_id
              >>= view addr (some backend) opts
              >>= unpack_message_received_result L)
    unfolding whole message_received pack_message_received unpack_message_received_result
    binding_views_packed addr backend opts id message_id =
        ap (λ r. r >>= λ m. message_received B m.caller opts id message_id) (made addr backend)
        ∙ ap (λ r. r >>= λ out. out_at out 0 >>= λ v. B.to_bool v >>= λ b. ok b)
            (call-packs addr (some backend) (some backend) (some backend) opts "messageReceived"
              (identifier id ∷ big_int message_id ∷ []))
        ∙ >>=-assoc (packed id message_id >>= view addr (some backend) opts)
            (decode "messageReceived") (λ out. out_at out 0 >>= λ v. B.to_bool v >>= λ b. ok b)
        ∙ (λ i. packed id message_id >>= view addr (some backend) opts >>= λ r. unpacked r i)
        ∙ ap
            (λ a.
              (wrapping "failed to get abi" a >>= λ abi.
              L.pack abi "messageReceived" (identifier id ∷ big_int message_id ∷ []))
              >>= view addr (some backend) opts
              >>= unpack_message_received_result L)
            (sym parsed)
