-- ===== src/Bindings/Event/Laws.antt =====
-- abi-bindings/go/Teleporter/TeleporterMessenger/event.go: names and events determine one another.
use teleporter.Base.{ℕ, ◌≡◌, ◌↔◌, ok, arith, text_eq, eq_of_text_eq}
use teleporter.Text.{Text, to_lower}
use teleporter.Bindings.Event.{
  Event, unknown, send_cross_chain_message, receive_cross_chain_message, add_fee_amount,
  message_execution_failed, message_executed, relayer_rewards_redeemed, undeclared, string,
  to_event, send_cross_chain_message_str, receive_cross_chain_message_str, add_fee_amount_str,
  message_execution_failed_str, message_executed_str, relayer_rewards_redeemed_str,
}

-- The six events of the contract: every `Event` but `Unknown` and the undeclared numbers.
abbrev pub IsDeclared : Event → Type 0
IsDeclared unknown = ⊥
IsDeclared (undeclared n) = ⊥
IsDeclared _ = Unit

module _ (beyond : ℕ → ℕ) where
  to_event_sound :
      (s : Text) (e : Event)
      → to_event beyond s ≡ ok e
      → IsDeclared e × (to_lower beyond s ≡ to_lower beyond (string e))
  unfolding to_event string
  to_event_sound s e h =
      let lower = to_lower beyond s in
      ground (
        arith,
        eq_of_text_eq lower (to_lower beyond send_cross_chain_message_str),
        eq_of_text_eq lower (to_lower beyond receive_cross_chain_message_str),
        eq_of_text_eq lower (to_lower beyond add_fee_amount_str),
        eq_of_text_eq lower (to_lower beyond message_execution_failed_str),
        eq_of_text_eq lower (to_lower beyond message_executed_str),
        eq_of_text_eq lower (to_lower beyond relayer_rewards_redeemed_str),
      )

  to_event_complete :
      (s : Text) (e : Event)
      → IsDeclared e
      → to_lower beyond s ≡ to_lower beyond (string e)
      → to_event beyond s ≡ ok e
  unfolding to_event string to_lower text_eq send_cross_chain_message_str
      receive_cross_chain_message_str add_fee_amount_str message_execution_failed_str
      message_executed_str relayer_rewards_redeemed_str
  to_event_complete s unknown d h = absurd d
  to_event_complete s (undeclared n) d h = absurd d
  to_event_complete s send_cross_chain_message d h = rw h
  to_event_complete s receive_cross_chain_message d h = rw h
  to_event_complete s add_fee_amount d h = rw h
  to_event_complete s message_execution_failed d h = rw h
  to_event_complete s message_executed d h = rw h
  to_event_complete s relayer_rewards_redeemed d h = rw h

  -- `ToEvent` accepts a text as an event exactly when the event is one of the six of the contract and
  -- the text is its `String()` up to `strings.ToLower`, whatever that does outside ASCII.
  pub to_event-string_iff :
      (s : Text) (e : Event)
      → (to_event beyond s ≡ ok e)
        ↔ (IsDeclared e × (to_lower beyond s ≡ to_lower beyond (string e)))
  to_event-string_iff s e = (to_event_sound s e, λ h. to_event_complete s e h.0 h.1)
