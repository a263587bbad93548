-- ===== src/Contract/Iterator/Laws.antt =====
-- What a caller gets out of an iterator, in whatever order the goroutine and the calls of `Next` are served.
use mathlib.Core.Bool.{true≢false}
use mathlib.Core.Path.{subst}
use teleporter.Base.{
  ℕ, ◌≡◌, refl, sym, ap, ◌∙◌, ◌⊎◌, inl, inr, Bool, true, false, List, [], ◌∷◌, Option, none, some,
  GoError, String, ◌≢◌, Outcome, ok, fail, panic, arith,
}
use teleporter.Bindings.Types.{Log}
use teleporter.Contract.Bound.{BindLib, Unpacker}
use teleporter.Contract.Iterator.{
  LogIterator, log_arrived, sub_err, receive, poll, next_done, select, next, parse,
}
use teleporter.Contract.Iterator.Feed.{
  Feed, Label, silent, returned, head, tail, Step, sends, ends, takes_log, takes_end, polls, fails,
}

module _ {B : BindLib} {Event : Type 0} (U : Unpacker B Event) (set_raw : Event → Log → Event) where
  abbrev It : Type 0
  It = LogIterator B Event

  add_parsed : Outcome Event → List Event × Option GoError → List Event × Option GoError
  add_parsed (ok e) rest = (e ∷ rest.0, rest.1)
  add_parsed (fail err) rest = ([], some err)
  add_parsed (panic err) rest = ([], some err)

  -- The events of the logs up to the first that does not parse, and the error of that one.
  unfoldable pub parse_all : B.BoundContract → String → List Log → List Event × Option GoError
  unfolding add_parsed
  parse_all contract name [] = ([], none)
  parse_all contract name (log ∷ logs) =
      add_parsed (parse U set_raw contract name log) (parse_all contract name logs)

  pub parse_all-ok :
      (contract : B.BoundContract) (name : String) (log : Log) (logs : List Log) (e : Event)
      → parse U set_raw contract name log ≡ ok e
      → parse_all contract name (log ∷ logs)
        ≡ (e ∷ (parse_all contract name logs).0, (parse_all contract name logs).1)
  unfolding parse_all add_parsed
  parse_all-ok contract name log logs e h = rw h

  pub parse_all-fail :
      (contract : B.BoundContract) (name : String) (log : Log) (logs : List Log) (err : GoError)
      → parse U set_raw contract name log ≡ fail err
      → parse_all contract name (log ∷ logs) ≡ ([], some err)
  unfolding parse_all add_parsed
  parse_all-fail contract name log logs err h = rw h

  -- A log that is received is parsed: its event is set and `Next` is true, or its error is.
  receive-parse :
      (it : It) (log : Log)
      → ((e : Event) × (parse U set_raw it.contract it.event_name log ≡ ok e)
          × (receive U set_raw it log ≡ (record it { event = some e }, true)))
        ⊎ ((err : GoError) × (e : Event) × (parse U set_raw it.contract it.event_name log
              ≡ fail err)
            × (receive U set_raw it log
                ≡ (record it { event = some e; failure = some err }, false)))
  unfolding receive parse
  receive-parse it log = go (U.unpack_log it.contract U.new_event it.event_name log) refl
    where
      go :
          (o : Event × Option GoError)
          → U.unpack_log it.contract U.new_event it.event_name log ≡ o
          → ((e : Event) × (parse U set_raw it.contract it.event_name log ≡ ok e)
              × (receive U set_raw it log ≡ (record it { event = some e }, true)))
            ⊎ ((err : GoError) × (e : Event) × (parse U set_raw it.contract it.event_name log
                  ≡ fail err)
                × (receive U set_raw it log
                    ≡ (record it { event = some e; failure = some err }, false)))
      go (e, none) h = inl (set_raw e log, rw h, rw h)
      go (e, some err) h = inr (err, e, rw h, rw h)

  -- What a call of `Next` leaves as it was.
  pub record Kept (s t : Feed B Event) : Type 0 where
    pub same_contract : t.it.contract ≡ s.it.contract
    pub same_name : t.it.event_name ≡ s.it.event_name
    pub same_unsent : t.unsent ≡ s.unsent
    pub same_ended : t.ended ≡ s.ended
    pub done_late : t.it.done ≡ true → s.it.done ≡ true ⊎ s.ended ≡ true

  -- What a call of `Next` comes to: the first log of the channel parses or not, there is none to come, or the
  -- iterator has failed before.
  pub data Effect (s : Feed B Event) (b : Bool) (t : Feed B Event) : Type 0 where
    got :
        (e : Event) (log : Log) (logs : List Log)
        → s.it.failure ≡ none
        → s.buffered ≡ log ∷ logs
        → parse U set_raw s.it.contract s.it.event_name log ≡ ok e
        → b ≡ true
        → t.it.event ≡ some e
        → t.it.failure ≡ none
        → t.buffered ≡ logs
        → Kept s t
        → Effect s b t
    broke :
        (err : GoError) (log : Log) (logs : List Log)
        → s.it.failure ≡ none
        → s.buffered ≡ log ∷ logs
        → parse U set_raw s.it.contract s.it.event_name log ≡ fail err
        → b ≡ false
        → t.it.failure ≡ some err
        → Kept s t
        → Effect s b t
    exhausted :
        s.it.failure ≡ none
        → (s.it.done ≡ true ⊎ s.ended ≡ true)
        → s.buffered ≡ []
        → b ≡ false
        → t.it.failure ≡ none
        → t.buffered ≡ []
        → Kept s t
        → Effect s b t
    failed : (err : GoError) → s.it.failure ≡ some err → b ≡ false → t ≡ s → Effect s b t

  next-receive :
      (it : It) (log : Log) (polled : Option Log)
      → it.failure ≡ none
      → it.done ≡ false
      → next U set_raw (log_arrived log) polled it
        ≡ receive U set_raw (record it { failure = none }) log
  unfolding next select
  next-receive it log polled alive working = ground arith

  next-end :
      (it : It) (polled : Option Log)
      → it.failure ≡ none
      → it.done ≡ false
      → next U set_raw (sub_err none) polled it
        ≡ poll U set_raw (record it { done = true; failure = none }) polled
  unfolding next select next_done
  next-end it polled alive working = ground arith

  next-poll :
      (it : It) (polled : Option Log)
      → it.failure ≡ none
      → it.done ≡ true
      → next U set_raw (sub_err none) polled it
        ≡ poll U set_raw (record it { done = true; failure = none }) polled
  unfolding next
  next-poll it polled alive finished = ground arith

  next-failed :
      (it : It) (polled : Option Log) (err : GoError)
      → it.failure ≡ some err
      → next U set_raw (sub_err none) polled it ≡ (it, false)
  unfolding next
  next-failed it polled err dead = ground arith

  -- A call that receives from an iterator that is `s.it` but for `done`.
  receive-Effect :
      (s : Feed B Event) (late : Bool) (log : Log) (logs : List Log)
      → s.it.failure ≡ none
      → (late ≡ true → s.it.done ≡ true ⊎ s.ended ≡ true)
      → s.buffered ≡ log ∷ logs
      → let r = receive U set_raw (record s.it { done = late; failure = none }) log in
        Effect s r.1 (record s { it = r.0; buffered = logs })
  receive-Effect s late log logs alive over buf =
      elim (receive-parse (record s.it { done = late; failure = none }) log) [
        | inl (e, p, r) ↦
            got e log logs alive buf p (ap (λ x. x.1) r) (ap (λ x. x.0.event) r)
              (ap (λ x. x.0.failure) r) refl
              (record {
                same_contract = ap (λ x. x.0.contract) r;
                same_name = ap (λ x. x.0.event_name) r;
                same_unsent = refl;
                same_ended = refl;
                done_late = λ d. over (sym (ap (λ x. x.0.done) r) ∙ d);
              })
        | inr (err, e, p, r) ↦
            broke err log logs alive buf p (ap (λ x. x.1) r) (ap (λ x. x.0.failure) r) (record {
              same_contract = ap (λ x. x.0.contract) r;
              same_name = ap (λ x. x.0.event_name) r;
              same_unsent = refl;
              same_ended = refl;
              done_late = λ d. over (sym (ap (λ x. x.0.done) r) ∙ d);
            })
      ]

  -- A call that polls the channel.
  poll-Effect :
      (s : Feed B Event)
      → s.it.failure ≡ none
      → s.it.done ≡ true ⊎ s.ended ≡ true
      → let r = poll U set_raw (record s.it { done = true; failure = none }) (head s.buffered) in
        Effect s r.1 (record s { it = r.0; buffered = tail s.buffered })
  unfolding poll
  poll-Effect s alive over = go s.buffered refl
    where
      go :
          (logs : List Log)
          → s.buffered ≡ logs
          → let r = poll U set_raw (record s.it { done = true; failure = none }) (head logs) in
            Effect s r.1 (record s { it = r.0; buffered = tail logs })
      go [] buf = exhausted alive over buf refl refl refl (record {
        same_contract = refl;
        same_name = refl;
        same_unsent = refl;
        same_ended = refl;
        done_late = λ d. over;
      })
      go (log ∷ logs) buf = receive-Effect s true log logs alive (λ d. over) buf

  result : Label → Bool
  result silent = false
  result (returned b) = b

  is_returned : Label → Bool
  is_returned silent = false
  is_returned (returned b) = true

  pub returned≢silent : (b : Bool) → returned b ≢ silent
  unfolding is_returned
  returned≢silent b h = true≢false (ap is_returned h)

  -- A step that comes back with what `Next` returns.
  Effect-moved :
      (s : Feed B Event) (logs : List Log) (r next_result : It × Bool) (b : Bool) (t : Feed B Event)
      → Effect s r.1 (record s { it = r.0; buffered = logs })
      → next_result ≡ r
      → returned b ≡ returned next_result.1
      → t ≡ record s { it = next_result.0; buffered = logs }
      → Effect s b t
  unfolding result
  Effect-moved s logs r next_result b t effect same lab e =
      subst (λ u. Effect s b u) (sym (e ∙ ap (λ x. record s { it = x.0; buffered = logs }) same))
        (subst (λ x. Effect s x (record s { it = r.0; buffered = logs }))
          (sym (ap result lab ∙ ap (λ x. x.1) same)) effect)

  pub Step-Effect :
      (capacity : ℕ) (s : Feed B Event) (b : Bool) (t : Feed B Event)
      → Step U set_raw capacity s (returned b) t
      → Effect s b t
  unfolding result
  Step-Effect capacity s b t (sends log logs h1 h2 lab e) = absurd (returned≢silent b lab)
  Step-Effect capacity s b t (ends h working lab e) = absurd (returned≢silent b lab)
  Step-Effect capacity s b t (takes_log log logs alive working buf lab e) =
      Effect-moved s logs (receive U set_raw (record s.it { failure = none }) log)
        (next U set_raw (log_arrived log) none s.it) b t
        (receive-Effect s s.it.done log logs alive inl buf)
        (next-receive s.it log none alive working) lab e
  Step-Effect capacity s b t (takes_end alive working over lab e) =
      Effect-moved s (tail s.buffered)
        (poll U set_raw (record s.it { done = true; failure = none }) (head s.buffered))
        (next U set_raw (sub_err none) (head s.buffered) s.it) b t (poll-Effect s alive (inr over))
        (next-end s.it (head s.buffered) alive working) lab e
  Step-Effect capacity s b t (polls alive finished lab e) =
      Effect-moved s (tail s.buffered)
        (poll U set_raw (record s.it { done = true; failure = none }) (head s.buffered))
        (next U set_raw (sub_err none) (head s.buffered) s.it) b t
        (poll-Effect s alive (inl finished)) (next-poll s.it (head s.buffered) alive finished) lab e
  Step-Effect capacity s b t (fails err dead lab e) =
      failed err dead (ap result lab ∙ ap (λ x. x.1) (next-failed s.it none err dead))
        (e ∙ ap (λ x. record s { it = x.0 }) (next-failed s.it none err dead))
