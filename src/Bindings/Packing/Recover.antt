-- ===== src/Bindings/Packing/Recover.antt =====
-- `UnpackEvent` of packing.go reads back the event that a log was packed from.
use mathlib.Core.List.{Perm, perm_middle}
use mathlib.Core.List.Perm
use teleporter.Base.{◌≡◌, ◌∙◌, ◌≢◌, refl, List, [], ◌∷◌, ◌++◌, map, arith}
use teleporter.Base.{ok, if◌then◌else◌, Bool-cases, inl, inr}
use teleporter.Text.{Text}
use teleporter.Bindings.Types.{Bytes, Hash}
use teleporter.Bindings.Abi.{AbiLib, Input}
use teleporter.Bindings.Packing.{indexed_inputs, unpack_event, unpack_data}

-- The inputs of an event that stand in the data, and those that have a topic, in order.
unfoldable pub data_inputs : List Input → List Input
data_inputs [] = []
data_inputs (arg ∷ inputs) = if arg.indexed then data_inputs inputs else arg ∷ data_inputs inputs

unfoldable pub topic_inputs : List Input → List Input
topic_inputs [] = []
topic_inputs (arg ∷ inputs) = if arg.indexed then arg ∷ topic_inputs inputs else topic_inputs inputs

indexed_inputs-topic_inputs : (inputs : List Input) → indexed_inputs inputs ≡ topic_inputs inputs
unfolding indexed_inputs topic_inputs
indexed_inputs-topic_inputs [] = refl
indexed_inputs-topic_inputs (arg ∷ inputs) = ground (arith, indexed_inputs-topic_inputs inputs)

module _ (L : AbiLib) where
  open L use {Value}

  abbrev pub assign : (Input → Value) → List Input → List (Text × Value)
  assign value = map (λ arg. (arg.name, value arg))

  -- The documented inverse of event packing, at one log: `UnpackIntoInterface` sets the fields of the inputs that
  -- stand in the data, `ParseTopics` those of the inputs that have a topic, and the data is empty only
  -- if no input stands there.
  pub record IsPackedEvent (abi : L.ContractAbi) (event : Text) (value : Input → Value)
      (topics : List Hash) (log_data : Bytes) : Type 0 where
    pub data-nil : data_inputs (L.event_inputs abi event) ≡ [] → log_data ≡ []
    pub data-ne-nil : data_inputs (L.event_inputs abi event) ≢ [] → log_data ≢ []
    pub unpacks :
        data_inputs (L.event_inputs abi event) ≢ []
        → L.unpack_into_interface abi [] event log_data
          ≡ ok (assign value (data_inputs (L.event_inputs abi event)))
    pub parses :
        (out : List (Text × Value))
        → L.parse_topics out (topic_inputs (L.event_inputs abi event)) topics
          ≡ ok (out ++ assign value (topic_inputs (L.event_inputs abi event)))

  assign-perm :
      (value : Input → Value) (inputs : List Input)
      → Perm
          (assign value (data_inputs inputs) ++ assign value (topic_inputs inputs))
          (assign value inputs)
  unfolding data_inputs topic_inputs
  assign-perm value [] = Perm.refl []
  assign-perm value (arg ∷ inputs) = elim (Bool-cases arg.indexed) [
    | inl e ↦
        simp e (
          Perm.trans (perm_middle _ _) (Perm.cons (arg.name, value arg) (assign-perm value inputs)))
    | inr e ↦ simp e (Perm.cons (arg.name, value arg) (assign-perm value inputs))
  ]

  module _ (abi : L.ContractAbi) (event : Text) (value : Input → Value) (topics : List Hash)
      (log_data : Bytes) (packed : IsPackedEvent abi event value topics log_data) where
    unpack_data_of_ne_nil :
        (b : Bytes) → b ≢ [] → unpack_data L abi [] event b ≡ L.unpack_into_interface abi [] event b
    unfolding unpack_data
    unpack_data_of_ne_nil [] h = absurd (h refl)
    unpack_data_of_ne_nil (b ∷ bs) h = refl

    unpack_data-packed :
        (inputs : List Input)
        → data_inputs (L.event_inputs abi event) ≡ inputs
        → unpack_data L abi [] event log_data ≡ ok (assign value inputs)
    unpack_data-packed [] e = rw (packed.data-nil e) (unfold unpack_data in refl)
    unpack_data-packed (arg ∷ inputs) e =
        let some_data : data_inputs (L.event_inputs abi event) ≢ [] = λ nil. cc (e, nil) in
        unpack_data_of_ne_nil log_data (packed.data-ne-nil some_data)
        ∙ rw e at (packed.unpacks some_data)

    -- From the topics and data of a packed event, with any mix of indexed and other inputs,
    -- `UnpackEvent` sets the field of every input to the value that was packed, once, and no other field.
    pub unpack_event_recovers :
        (id : Hash)
        → L.get_abi ≡ ok abi
        → (fields : List (Text × Value)) × (unpack_event L [] event (id ∷ topics) log_data
            ≡ ok fields)
          × Perm fields (assign value (L.event_inputs abi event))
    unfolding unpack_event
    unpack_event_recovers id h =
        let inputs = L.event_inputs abi event in
        (
          assign value (data_inputs inputs) ++ assign value (topic_inputs inputs),
          rw (h, unpack_data-packed (data_inputs inputs) refl, indexed_inputs-topic_inputs inputs)
              (packed.parses (assign value (data_inputs inputs))),
          assign-perm value inputs,
        )
