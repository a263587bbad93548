-- ===== src/Contract/Iterator/Delivery.antt =====
-- The iterators over filtered logs, and the channel that they read, as one source of events.
use mathlib.Core.Bool.{true≢false}
use mathlib.Core.List.{append_assoc, append-nil, nil≢cons}
use mathlib.Core.Option.{some-injective}
use mathlib.Core.Path.{subst}
use teleporter.Base.{
  ℕ, ◌≡◌, refl, sym, ap, ◌∙◌, ◌⊎◌, inl, inr, true, false, List, [], ◌∷◌, ◌++◌, Option, none, some,
  GoError, String, ok, fail,
}
use teleporter.Bindings.Types.{Log}
use teleporter.Contract.Bound.{BindLib, Unpacker}
use teleporter.Contract.Iterator.{LogIterator, next, error, parse}
use teleporter.Contract.Iterator.Feed.{
  Feed, silent, returned, started, Step, sends, ends, takes_log, takes_end, polls, fails, Run, here,
  works, yields,
}
use teleporter.Contract.Iterator.Laws.{
  parse_all, parse_all-ok, parse_all-fail, Kept, Effect, got, broke, exhausted, failed,
  returned≢silent, Step-Effect,
}

module _ {B : BindLib} {Event : Type 0} (U : Unpacker B Event) (set_raw : Event → Log → Event)
    (capacity : ℕ) (contract : B.BoundContract) (event_name : String) where
  abbrev parsed_logs : List Log → List Event × Option GoError
  parsed_logs logs = parse_all U set_raw contract event_name logs

  -- The events and the error that are delivered in all, when `events` were delivered before and the logs are left.
  promised : List Event → List Log → Option GoError → List Event × Option GoError
  promised events logs none = (events ++ (parsed_logs logs).0, (parsed_logs logs).1)
  promised events logs (some err) = (events, some err)

  -- What holds between the calls of `Next`.
  record Inv (logs : List Log) (events : List Event) (s : Feed B Event) : Type 0 where
    inv_contract : s.it.contract ≡ contract
    inv_name : s.it.event_name ≡ event_name
    delivered : parsed_logs logs ≡ promised events (s.buffered ++ s.unsent) s.it.failure
    done_ended : s.it.done ≡ true → s.ended ≡ true
    all_sent : s.ended ≡ true → s.unsent ≡ []

  Inv-silent :
      (logs : List Log) (events : List Event) (s t : Feed B Event)
      → Inv logs events s
      → Step U set_raw capacity s silent t
      → Inv logs events t
  Inv-silent logs events s t inv (sends log rest left room lab e) =
      subst (Inv logs events) (sym e) (record {
        inv_contract = inv.inv_contract;
        inv_name = inv.inv_name;
        delivered =
            inv.delivered
            ∙ ap (λ l. promised events l s.it.failure)
                (ap (λ l. s.buffered ++ l) left ∙ sym (append_assoc s.buffered (log ∷ []) rest));
        done_ended = inv.done_ended;
        all_sent = λ h. absurd (nil≢cons (sym (inv.all_sent h) ∙ left));
      })
  Inv-silent logs events s t inv (ends left working lab e) =
      subst (Inv logs events) (sym e) (record {
        inv_contract = inv.inv_contract;
        inv_name = inv.inv_name;
        delivered = inv.delivered;
        done_ended = λ h. refl;
        all_sent = λ h. left;
      })
  Inv-silent logs events s t inv (takes_log log rest alive working buf lab e) =
      absurd (returned≢silent U set_raw (next U set_raw _ _ s.it).1 (sym lab))
  Inv-silent logs events s t inv (takes_end alive working over lab e) =
      absurd (returned≢silent U set_raw _ (sym lab))
  Inv-silent logs events s t inv (polls alive finished lab e) =
      absurd (returned≢silent U set_raw _ (sym lab))
  Inv-silent logs events s t inv (fails err dead lab e) =
      absurd (returned≢silent U set_raw _ (sym lab))

  -- The logs that are left, with the first of the channel apart.
  left_logs :
      (events : List Event) (s : Feed B Event) (log : Log) (rest : List Log)
      → s.it.failure ≡ none
      → s.buffered ≡ log ∷ rest
      → promised events (s.buffered ++ s.unsent) s.it.failure
        ≡ promised events (log ∷ (rest ++ s.unsent)) none
  left_logs events s log rest alive buf =
      ap (λ f. promised events (s.buffered ++ s.unsent) f) alive
      ∙ ap (λ l. promised events (l ++ s.unsent) none) buf

  -- The parser, at the contract and the name that the iterator has kept.
  parse_kept :
      (logs : List Log) (events : List Event) (s : Feed B Event) (log : Log)
      → Inv logs events s
      → parse U set_raw contract event_name log ≡ parse U set_raw s.it.contract s.it.event_name log
  parse_kept logs events s log inv =
      ap (λ c. parse U set_raw c event_name log) (sym inv.inv_contract)
      ∙ ap (λ n. parse U set_raw s.it.contract n log) (sym inv.inv_name)

  promised-ok :
      (events : List Event) (log : Log) (rest : List Log) (e : Event)
      → parse U set_raw contract event_name log ≡ ok e
      → promised events (log ∷ rest) none ≡ promised (events ++ (e ∷ [])) rest none
  unfolding promised
  promised-ok events log rest e h =
      ap (λ p. (events ++ p.0, p.1)) (parse_all-ok U set_raw contract event_name log rest e h)
      ∙ ap (λ l. (l, (parsed_logs rest).1))
          (sym (append_assoc events (e ∷ []) (parsed_logs rest).0))

  promised-fail :
      (events : List Event) (log : Log) (rest : List Log) (err : GoError)
      → parse U set_raw contract event_name log ≡ fail err
      → promised events (log ∷ rest) none ≡ (events, some err)
  unfolding promised
  promised-fail events log rest err h =
      ap (λ p. (events ++ p.0, p.1)) (parse_all-fail U set_raw contract event_name log rest err h)
      ∙ ap (λ l. (l, some err)) (append-nil events)

  -- The same promise of the logs after the call, which leaves the channel with the others.
  regrouped :
      (events : List Event) (s t : Feed B Event) (e event : Event) (rest : List Log)
      → Kept U set_raw s t
      → e ≡ event
      → t.buffered ≡ rest
      → t.it.failure ≡ none
      → promised (events ++ (e ∷ [])) (rest ++ s.unsent) none
        ≡ promised (events ++ (event ∷ [])) (t.buffered ++ t.unsent) t.it.failure
  regrouped events s t e event rest kept same bufs unfailed =
      ap (λ x. promised (events ++ (x ∷ [])) (rest ++ s.unsent) none) same
      ∙ ap (λ l. promised (events ++ (event ∷ [])) (l ++ s.unsent) none) (sym bufs)
      ∙ ap (λ l. promised (events ++ (event ∷ [])) (t.buffered ++ l) none) (sym kept.same_unsent)
      ∙ ap (λ f. promised (events ++ (event ∷ [])) (t.buffered ++ t.unsent) f) (sym unfailed)

  was_ended :
      (logs : List Log) (events : List Event) (s : Feed B Event)
      → Inv logs events s
      → s.it.done ≡ true ⊎ s.ended ≡ true
      → s.ended ≡ true
  was_ended logs events s inv (inl finished) = inv.done_ended finished
  was_ended logs events s inv (inr over) = over

  Inv-true :
      (logs : List Log) (events : List Event) (s t : Feed B Event) (event : Event)
      → Inv logs events s
      → Effect U set_raw s true t
      → t.it.event ≡ some event
      → Inv logs (events ++ (event ∷ [])) t
  Inv-true logs events s t event inv (got e log rest alive buf parses b seen unfailed bufs kept)
        saw =
      record {
        inv_contract = kept.same_contract ∙ inv.inv_contract;
        inv_name = kept.same_name ∙ inv.inv_name;
        delivered =
            inv.delivered
            ∙ left_logs events s log rest alive buf
            ∙ promised-ok events log (rest ++ s.unsent) e
                (parse_kept logs events s log inv ∙ parses)
            ∙ regrouped events s t e event rest kept (some-injective e event (sym seen ∙ saw)) bufs
                unfailed;
        done_ended = λ h. kept.same_ended ∙ was_ended logs events s inv (kept.done_late h);
        all_sent = λ h. kept.same_unsent ∙ inv.all_sent (sym kept.same_ended ∙ h);
      }
  Inv-true logs events s t event inv (broke err log rest alive buf parses b unfailed kept) saw =
      absurd (true≢false b)
  Inv-true logs events s t event inv (exhausted alive over buf b unfailed bufs kept) saw =
      absurd (true≢false b)
  Inv-true logs events s t event inv (failed err dead b same) saw = absurd (true≢false b)

  Inv-false :
      (logs : List Log) (events : List Event) (s t : Feed B Event)
      → Inv logs events s
      → Effect U set_raw s false t
      → parsed_logs logs ≡ (events, t.it.failure)
  unfolding promised parse_all
  Inv-false logs events s t inv (got e log rest alive buf parses b seen unfailed bufs kept) =
      absurd (true≢false (sym b))
  Inv-false logs events s t inv (broke err log rest alive buf parses b dead kept) =
      inv.delivered
      ∙ left_logs events s log rest alive buf
      ∙ promised-fail events log (rest ++ s.unsent) err (parse_kept logs events s log inv ∙ parses)
      ∙ ap (λ f. (events, f)) (sym dead)
  Inv-false logs events s t inv (exhausted alive over buf b unfailed bufs kept) =
      inv.delivered
      ∙ ap (λ f. promised events (s.buffered ++ s.unsent) f) alive
      ∙ ap (λ l. promised events (l ++ s.unsent) none) buf
      ∙ ap (λ l. promised events l none) (inv.all_sent (was_ended logs events s inv over))
      ∙ ap (λ l. (l, none)) (append-nil events)
      ∙ ap (λ f. (events, f)) (sym unfailed)
  Inv-false logs events s t inv (failed err dead b same) =
      inv.delivered
      ∙ ap (λ f. promised events (s.buffered ++ s.unsent) f) dead
      ∙ ap (λ f. (events, f)) (sym (ap (λ u. u.it.failure) same ∙ dead))

  Run-Inv :
      (logs : List Log) (s : Feed B Event) (events : List Event) (t : Feed B Event)
      → Inv logs [] s
      → Run U set_raw capacity s events t
      → Inv logs events t
  Run-Inv logs s events t inv here = inv
  Run-Inv logs s events t inv (works {t = u} run step) =
      Inv-silent logs events u t (Run-Inv logs s events u inv run) step
  Run-Inv logs s events t inv (yields {events = before} {t = u} event more run step saw e) =
      subst (λ l. Inv logs l t) (sym e)
        (Inv-true logs before u t event (Run-Inv logs s before u inv run)
          (Step-Effect U set_raw capacity u true t step) saw)

  started-Inv :
      (it : LogIterator B Event) (logs : List Log)
      → it.contract ≡ contract
      → it.event_name ≡ event_name
      → it.failure ≡ none
      → it.done ≡ false
      → Inv logs [] (started it logs)
  unfolding promised
  started-Inv it logs same_contract same_name unfailed working = record {
    inv_contract = same_contract;
    inv_name = same_name;
    delivered = ap (λ f. promised [] logs f) (sym unfailed);
    done_ended = λ h. absurd (true≢false (sym h ∙ working));
    all_sent = λ h. absurd (true≢false (sym h));
  }

module _ {B : BindLib} {Event : Type 0} (U : Unpacker B Event) (set_raw : Event → Log → Event) where
  -- A caller that reads the event behind every `Next` that returns true, until one returns false, has got the events of
  -- the logs that the filter has found, in their order and each once, up to the first that does not parse, and `Error`
  -- is the error of that one, or nil where all parse: however the calls of `Next` interleave with the goroutine that
  -- fills the channel and ends the subscription, and whichever of a log and the end a call takes.
  pub iterator_delivers :
      (capacity : ℕ) (it : LogIterator B Event) (logs : List Log) (events : List Event)
      (t u : Feed B Event)
      → it.failure ≡ none
      → it.done ≡ false
      → Run U set_raw capacity (started it logs) events t
      → Step U set_raw capacity t (returned false) u
      → (events, error U set_raw u.it) ≡ parse_all U set_raw it.contract it.event_name logs
  unfolding error
  iterator_delivers capacity it logs events t u unfailed working run step =
      let inv =
        Run-Inv U set_raw capacity it.contract it.event_name logs (started it logs) events t
          (started-Inv U set_raw capacity it.contract it.event_name it logs refl refl unfailed
            working)
          run in
      sym (
        Inv-false U set_raw capacity it.contract it.event_name logs events t u inv
          (Step-Effect U set_raw capacity t false u step))
