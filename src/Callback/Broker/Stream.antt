-- ===== src/Callback/Broker/Stream.antt =====
-- What the client of a stream gets: the events of the run when the stream was opened, and after
-- these the ones that are put into its queue, without a gap and without a repetition.
use local_ai_rag.Prelude.{
  ℕ, String, false, List, [], ◌∷◌, ◌++◌, ◌≡◌, refl, arith, last_n, last_n_short, All, eq_refl,
  Bool-cases, inl, inr, subst, ap, sym, ◌∙◌,
}
use mathlib.Core.List.{append-nil}
use local_ai_rag.Text.{strip, is_empty}
use local_ai_rag.Dict.{Dict, get, get-put, All-put}
use local_ai_rag.Pipeline.Result.{ok, ok-injective}
use local_ai_rag.Callback.Broker.Queues.{occurrences-above, occurrences-new}
use local_ai_rag.Callback.Broker.Laws.{
  IsValid, IsSound, Reachable, Reachable-IsValid, run_or_new-IsSound,
}
use local_ai_rag.Callback.Broker.Waiting.{NoneWaiting, Reachable-NoneWaiting}
use local_ai_rag.Callback.Broker.Follows.{Follows, Others, others-Follows, Elsewhere}
use local_ai_rag.Pipeline.Validator.Rules.{elem}
use local_ai_rag.Value.{Value}
use local_ai_rag.Callback.Broker.{
  Broker, TraceRun, open_stream, max_events_per_run, run_or_new, attach, Opened, opened,
}

-- Queues that have not been given out stand in no run.
fresh-Elsewhere :
    (rid : String) (next : ℕ) (snapshot : List (Dict Value)) (runs : Dict TraceRun)
    → All (λ e. IsSound next e.1) runs
    → All (Elsewhere rid next snapshot) runs
unfolding IsSound
fresh-Elsewhere rid next snapshot [] a = tt
fresh-Elsewhere rid next snapshot ((k, run) ∷ runs) (h, a) =
    (inr (occurrences-above next run.queues h.1), fresh-Elsewhere rid next snapshot runs a)

-- A stream that has just been opened.
attach-Follows :
    (rid : String) (run : TraceRun) (b : Broker)
    → IsValid b
    → NoneWaiting b
    → IsSound b.next_queue run
    → run.closed ≡ false
    → elem rid b.stale ≡ false
    → Follows rid b.next_queue run.events (attach rid run b)
unfolding IsValid IsSound NoneWaiting
attach-Follows rid run b v w sound is_open unlisted =
    let q = b.next_queue in
    let run' : TraceRun = record run { queues = run.queues ++ q ∷ [] } in
    record {
      run = run';
      found = get-put rid rid run' b.runs ∙ rw (eq_refl rid) refl;
      is_open = is_open;
      once = occurrences-new q run.queues (occurrences-above q run.queues sound.1);
      elsewhere =
          All-put (Elsewhere rid q run.events) rid run' b.runs (inl refl)
            (fresh-Elsewhere rid q run.events b.runs v);
      given = omega arith;
      unlisted = unlisted;
      events = sym (
          ap (λ c. last_n max_events_per_run (run.events ++ c)) (w q (omega arith))
          ∙ ap (last_n max_events_per_run) (append-nil run.events)
          ∙ last_n_short max_events_per_run run.events sound.0);
    }

-- On a broker that threads can bring about from an empty one, a client opens a stream on an open
-- run that no cleanup under way has in its list, and nobody closes the run or removes the stream: whatever
-- the other threads do then, by any interleaving of their critical sections and of the steps of their
-- cleanups, the run is still there and open, and its events are the last
-- 600 of the snapshot followed by what has been put into the client's queue. No event is lost
-- between the two, and none comes twice.
pub open_stream-Follows :
    (created : ℕ) (run_id : String) (b c : Broker) (o : Opened)
    → Reachable b
    → (open_stream created run_id b).0 ≡ ok o
    → o.is_closed ≡ false
    → elem (strip run_id) b.stale ≡ false
    → Others (strip run_id) o.queue o.snapshot ((open_stream created run_id b).1) c
    → Follows (strip run_id) o.queue o.snapshot c
unfolding open_stream
open_stream-Follows created run_id b c o r h is_open unlisted s =
    elim (Bool-cases (is_empty (strip run_id))) [
      | inl empty ↦ cc (rw empty at h)
      | inr named ↦
          let rid = strip run_id in
          let run = run_or_new created (get rid b.runs) in
          let v = Reachable-IsValid b r in
          let e : opened b.next_queue run ≡ o = ok-injective (rw named at h) in
          let f =
            attach-Follows rid run b v (Reachable-NoneWaiting b r)
              (run_or_new-IsSound created rid b v) (ap (λ x. x.is_closed) e ∙ is_open) unlisted in
          let now_open : Follows rid o.queue o.snapshot ((open_stream created run_id b).1) =
            rw (named, open_stream)
              (subst (λ x. Follows rid x.queue x.snapshot (attach rid run b)) e f) in
          others-Follows rid o.queue o.snapshot _ c s now_open
    ]
