-- ===== src/Messenger/Delivery.antt =====
-- abi-bindings/go/Teleporter/TeleporterMessenger: the two ways to read the event SendCrossChainMessage.
use mathlib.Core.List.{append-nil}
use mathlib.Core.Option
use teleporter.Base.{
  ℕ, ℤ, ◌≡◌, refl, sym, ap, ◌∙◌, false, List, [], map, Option, none, some, GoError, String, ok,
  >>=-eq-ok, ok-injective,
}
use teleporter.Bindings.Types.{Hash, Log, TeleporterMessengerSendCrossChainMessage}
use teleporter.Contract.Bound.{BindLib, Unpacker}
use teleporter.Contract.Iterator.Delivery.{iterator_delivers}
use teleporter.Contract.Iterator.Feed.{Feed, returned, started, Step, Run}
use teleporter.Contract.Iterator.Laws.{parse_all}
use teleporter.Contract.Watch.{Incoming, arrived, taken, watch_loop}
use teleporter.Contract.Watch.Laws.{followed_by, watch_delivers}
use teleporter.Messenger.Binding.{TeleporterMessengerFilterer}
use teleporter.Messenger.SendCrossChainMessage.{
  set_raw, SendCrossChainMessageIterator, error, filter_send_cross_chain_message,
  watch_send_cross_chain_message,
}

module _ (B : BindLib) (U : Unpacker B TeleporterMessengerSendCrossChainMessage)
    (filterer : TeleporterMessengerFilterer B) (destinations : List Hash) (ids : List ℤ) where
  abbrev Delivered : Type 0
  Delivered = List TeleporterMessengerSendCrossChainMessage × Option (Option GoError)

  abbrev event_name : String
  event_name = "SendCrossChainMessage"

  abbrev loop_of : List Incoming → Delivered
  loop_of incoming = watch_loop U set_raw filterer.contract event_name incoming

  -- The subscription when no more comes.
  followed-nothing :
      (parsed : List TeleporterMessengerSendCrossChainMessage × Option GoError)
      → followed_by U set_raw filterer.contract event_name parsed ([], none)
        ≡ (parsed.0, Option.map some parsed.1)
  unfolding followed_by
  followed-nothing (events, none) = ap (λ l. (l, none)) (append-nil events)
  followed-nothing (events, some err) = refl

  loop-parse_all :
      (logs : List Log)
      → let parsed = parse_all U set_raw filterer.contract event_name logs in
        loop_of (map (λ log. arrived log taken) logs) ≡ (parsed.0, Option.map some parsed.1)
  unfolding watch_loop
  loop-parse_all logs =
      ap loop_of (sym (append-nil (map (λ log. arrived log taken) logs)))
      ∙ watch_delivers U set_raw filterer.contract event_name logs []
      ∙ followed-nothing (parse_all U set_raw filterer.contract event_name logs)

  -- An iterator over the events and a subscription to them agree: the events that the iterator has given when `Next`
  -- returns false are those that a user who takes what comes gets from the subscription for the same logs, and it
  -- has ended with the error of the iterator or still runs where that has none.
  pub filter_watch_agree :
      (capacity : ℕ) (filter_opts : B.FilterOpts) (watch_opts : B.WatchOpts)
      (it : SendCrossChainMessageIterator B U) (sub : B.Subscription)
      (loop : List Incoming → Delivered) (logs : List Log)
      (events : List TeleporterMessengerSendCrossChainMessage)
      (t u : Feed B TeleporterMessengerSendCrossChainMessage)
      → filter_send_cross_chain_message B U filterer filter_opts destinations ids ≡ ok it
      → watch_send_cross_chain_message B U filterer watch_opts destinations ids ≡ ok (sub, loop)
      → Run U set_raw capacity (started it logs) events t
      → Step U set_raw capacity t (returned false) u
      → loop (map (λ log. arrived log taken) logs) ≡ (events, Option.map some (error B U u.it))
  unfolding filter_send_cross_chain_message watch_send_cross_chain_message error
  filter_watch_agree capacity filter_opts watch_opts it sub loop logs events t u filtered watched
        run step =
      let (found, f, fresh) =
        >>=-eq-ok (B.filter_logs filterer.contract filter_opts event_name _) _ filtered in
      let (watched_logs, w, looped) =
        >>=-eq-ok (B.watch_logs filterer.contract watch_opts event_name _) _ watched in
      let fresh_it = ok-injective fresh in
      let delivered =
        iterator_delivers U set_raw capacity it logs events t u (ap (λ x. x.failure) (sym fresh_it))
          (ap (λ x. x.done) (sym fresh_it)) run step
        ∙ ap (λ x. parse_all U set_raw x.contract x.event_name logs) (sym fresh_it) in
      ap (λ f. f.1 (map (λ log. arrived log taken) logs)) (sym (ok-injective looped))
      ∙ loop-parse_all logs
      ∙ ap
          (λ (p : List TeleporterMessengerSendCrossChainMessage × Option GoError).
            (p.0, Option.map some p.1))
          (sym delivered)
