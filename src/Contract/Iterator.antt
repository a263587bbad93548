-- ===== src/Contract/Iterator.antt =====
-- The iterators over filtered logs that every generated binding has, one for each event.
pub mod Delivery
pub mod Termination
pub mod Feed
pub mod Laws
use teleporter.Base.{Bool, true, false, String, Option, none, some, if◌then◌else◌, GoError}
use teleporter.Base.{Outcome, ok, fail}
use teleporter.Bindings.Types.{Log}
use teleporter.Contract.Bound.{BindLib, Unpacker}

pub record LogIterator (B : BindLib) (Event : Type 0) : Type 0 where
  pub event : Option Event
  pub contract : B.BoundContract
  pub event_name : String
  pub logs : B.LogChannel
  pub sub : B.Subscription
  pub done : Bool
  pub failure : Option GoError

-- What the blocking `select` of `Next` takes: a log, or what `sub.Err()` delivers.
pub data Selected : Type 0 where
  log_arrived : Log → Selected
  sub_err : Option GoError → Selected

module _ {B : BindLib} {Event : Type 0} (U : Unpacker B Event) (set_raw : Event → Log → Event) where
  received : LogIterator B Event → Log → Event × Option GoError → LogIterator B Event × Bool
  received it log (e, none) = (record it { event = some (set_raw e log) }, true)
  received it log (e, some err) = (record it { event = some e; failure = some err }, false)

  -- `case log := <-it.logs`
  unfoldable pub receive : LogIterator B Event → Log → LogIterator B Event × Bool
  unfolding received
  receive it log = received it log (U.unpack_log it.contract U.new_event it.event_name log)

  -- The `select` with a default: `polled` is the log that is there, if any.
  unfoldable pub poll : LogIterator B Event → Option Log → LogIterator B Event × Bool
  poll it none = (it, false)
  poll it (some log) = receive it log

  -- `it.Next()` when the iterator is done.
  unfoldable pub next_done : LogIterator B Event → Option Log → LogIterator B Event × Bool
  next_done it polled = elim it.failure [ some err ↦ (it, false) | none ↦ poll it polled ]

  unfoldable pub select : LogIterator B Event → Selected → Option Log → LogIterator B Event × Bool
  select it (log_arrived log) polled = receive it log
  select it (sub_err err) polled = next_done (record it { done = true; failure = err }) polled

  -- `Next`: the iterator after it and its result, given what its two `select` statements would take.
  unfoldable pub next : Selected → Option Log → LogIterator B Event → LogIterator B Event × Bool
  next selected polled it = elim it.failure [
    | some err ↦ (it, false)
    | none ↦ if it.done then poll it polled else select it selected polled
  ]

  -- `Error`, and `Close`, which ends the subscription and returns no error.
  unfoldable pub error : LogIterator B Event → Option GoError
  error it = it.failure

  unfoldable pub close : LogIterator B Event → B.Subscription × Option GoError
  close it = (it.sub, none)

  parsed : Log → Event × Option GoError → Outcome Event
  parsed log (e, none) = ok (set_raw e log)
  parsed log (e, some err) = fail err

  -- `Parse…`
  unfoldable pub parse : B.BoundContract → String → Log → Outcome Event
  unfolding parsed
  parse contract event_name log = parsed log (U.unpack_log contract U.new_event event_name log)
