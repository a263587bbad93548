-- ===== src/Contract/Watch.antt =====
-- The subscriptions that every generated binding has, one for each event: the goroutine that forwards events.
pub mod Laws
use teleporter.Base.{String, List, [], ◌∷◌, Option, none, some, GoError}
use teleporter.Bindings.Types.{Log}
use teleporter.Contract.Bound.{BindLib, Unpacker}

-- What the inner `select` takes: the user receives the event, `sub.Err()` delivers, or the user quits.
pub data Forwarding : Type 0 where
  taken : Forwarding
  broken : Option GoError → Forwarding
  left : Forwarding

-- What the outer `select` takes. A log comes with what happens while its event is forwarded.
pub data Incoming : Type 0 where
  arrived : Log → Forwarding → Incoming
  sub_err : Option GoError → Incoming
  quit : Incoming

module _ {B : BindLib} {Event : Type 0} (U : Unpacker B Event) (set_raw : Event → Log → Event)
    (contract : B.BoundContract) (event_name : String) where
  -- The events that reach the user, and, once the loop has ended, the error that it returns.
  abbrev pub Forwarded : Type 0
  Forwarded = List Event × Option (Option GoError)

  forward : Log → Event × Option GoError → Forwarding → Forwarded → Forwarded
  forward log (e, some err) f rest = ([], some (some err))
  forward log (e, none) taken rest = (set_raw e log ∷ rest.0, rest.1)
  forward log (e, none) (broken err) rest = ([], some err)
  forward log (e, none) left rest = ([], some none)

  -- The loop of the goroutine. When the list is used up it is still waiting.
  unfoldable pub watch_loop : List Incoming → Forwarded
  unfolding forward
  watch_loop [] = ([], none)
  watch_loop (arrived log f ∷ rest) =
      forward log (U.unpack_log contract U.new_event event_name log) f (watch_loop rest)
  watch_loop (sub_err err ∷ rest) = ([], some err)
  watch_loop (quit ∷ rest) = ([], some none)
