-- ===== src/Contract/Iterator/Feed.antt =====
-- The channels of an iterator. What is assumed of `FilterLogs` of the package bind: the logs that it has found are sent
-- in their order over a buffered channel, by a goroutine, and the subscription ends, with no error, when all are sent.
use teleporter.Base.{
  ℕ, ◌<◌, ◌≡◌, Bool, true, false, List, [], ◌∷◌, ◌++◌, length, Option, none, some, GoError,
}
use teleporter.Bindings.Types.{Log}
use teleporter.Contract.Bound.{BindLib, Unpacker}
use teleporter.Contract.Iterator.{LogIterator, log_arrived, sub_err, next}

pub record Feed (B : BindLib) (Event : Type 0) : Type 0 where
  pub it : LogIterator B Event
  pub buffered : List Log
  pub unsent : List Log
  pub ended : Bool

-- The goroutine sends or ends by itself, or a call of `Next` comes back with a result.
pub data Label : Type 0 where
  silent : Label
  returned : Bool → Label

abbrev pub head : List Log → Option Log
head [] = none
head (log ∷ logs) = some log

abbrev pub tail : List Log → List Log
tail [] = []
tail (log ∷ logs) = logs

-- No log was found yet and the subscription runs.
abbrev pub started : {B : BindLib} {Event : Type 0} → LogIterator B Event → List Log → Feed B Event
started it logs = record { it = it; buffered = []; unsent = logs; ended = false }

module _ {B : BindLib} {Event : Type 0} (U : Unpacker B Event) (set_raw : Event → Log → Event)
    -- the capacity of the channel
    (capacity : ℕ) where
  -- The iterator after a call of `Next`, with the channel as the call leaves it.
  abbrev after : Feed B Event → LogIterator B Event × Bool → List Log → Feed B Event
  after s result logs = record s { it = result.0; buffered = logs }

  -- One step of the goroutine or one call of `Next`. Where a log is in the channel and the subscription has
  -- ended, a call that waits may take either.
  pub data Step (s : Feed B Event) (label : Label) (t : Feed B Event) : Type 0 where
    sends :
        (log : Log) (logs : List Log)
        → s.unsent ≡ log ∷ logs
        → length s.buffered < capacity
        → label ≡ silent
        → t ≡ record s { buffered = s.buffered ++ (log ∷ []); unsent = logs }
        → Step s label t
    ends :
        s.unsent ≡ []
        → s.ended ≡ false
        → label ≡ silent
        → t ≡ record s { ended = true }
        → Step s label t
    takes_log :
        (log : Log) (logs : List Log)
        → s.it.failure ≡ none
        → s.it.done ≡ false
        → s.buffered ≡ log ∷ logs
        → label ≡ returned (next U set_raw (log_arrived log) none s.it).1
        → t ≡ after s (next U set_raw (log_arrived log) none s.it) logs
        → Step s label t
    takes_end :
        s.it.failure ≡ none
        → s.it.done ≡ false
        → s.ended ≡ true
        → label ≡ returned (next U set_raw (sub_err none) (head s.buffered) s.it).1
        → t ≡ after s (next U set_raw (sub_err none) (head s.buffered) s.it) (tail s.buffered)
        → Step s label t
    polls :
        s.it.failure ≡ none
        → s.it.done ≡ true
        → label ≡ returned (next U set_raw (sub_err none) (head s.buffered) s.it).1
        → t ≡ after s (next U set_raw (sub_err none) (head s.buffered) s.it) (tail s.buffered)
        → Step s label t
    fails :
        (err : GoError)
        → s.it.failure ≡ some err
        → label ≡ returned (next U set_raw (sub_err none) none s.it).1
        → t ≡ after s (next U set_raw (sub_err none) none s.it) s.buffered
        → Step s label t

  -- The runs of a caller that reads `Event` behind every `Next` that returns true.
  pub data Run (s : Feed B Event) : List Event → Feed B Event → Type 0 where
    here : Run s [] s
    works :
        {events : List Event} {t u : Feed B Event}
        → Run s events t
        → Step t silent u
        → Run s events u
    yields :
        {events : List Event} {t u : Feed B Event} (event : Event) (more : List Event)
        → Run s events t
        → Step t (returned true) u
        → u.it.event ≡ some event
        → more ≡ events ++ (event ∷ [])
        → Run s more u
