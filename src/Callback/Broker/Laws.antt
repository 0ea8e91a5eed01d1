-- ===== src/Callback/Broker/Laws.antt =====
-- What every operation of the broker keeps: the bound on the events of a run, and the numbering of
-- the queues.
use local_ai_rag.Prelude.{
  ℕ, ◌+◌, ◌≤◌, ◌<◌, String, Bool, true, not, Option, none, some, List, [], ◌∷◌, ◌++◌, arith, length,
  keep_if, All, All-append, length-last_n-le, same_nat, Bool-cases, Option-cases, inl, inr,
}
use local_ai_rag.Text.{strip, is_empty}
use local_ai_rag.Dict.{Dict, get, put, remove, All-values-put, All-remove, get-All}
use local_ai_rag.Value.{Value}
use local_ai_rag.Pipeline.Validator.Rules.{elem}
use local_ai_rag.Callback.Policy.{CallbackPolicy}
use local_ai_rag.Callback.Broker.{
  Broker, TraceRun, configure_run, open_stream, remove_stream, emit_policy, deliver, close, look,
  pop, give_up, max_events_per_run, run_or_new, set_policy, add_event, is_stale, detach, new_broker,
  close_reason,
}

-- The queues of a run have been given out, and the run keeps at most 600 events.
unfoldable pub IsSound : ℕ → TraceRun → Type 0
IsSound next run = (length run.events ≤ max_events_per_run) × All (λ q. q < next) run.queues

unfoldable pub IsValid : Broker → Type 0
IsValid b = All (λ e. IsSound b.next_queue e.1) b.runs

-- One critical section of some thread, or one step of a cleanup behind it.
pub data Step : Broker → Broker → Type 0 where
  configures :
      (created : ℕ) (run_id : String) (policy : Option CallbackPolicy) {b : Broker}
      → Step b (configure_run created run_id policy b)
  opens : (created : ℕ) (run_id : String) {b : Broker} → Step b ((open_stream created run_id b).1)
  removes : (run_id : String) (q : ℕ) {b : Broker} → Step b (remove_stream run_id q b)
  asks : (created : ℕ) (rid : String) {b : Broker} → Step b ((emit_policy created rid b).1)
  delivers :
      (emitted : ℕ) (rid : String) (event : Dict Value) {b : Broker}
      → Step b (deliver emitted rid event b)
  closes :
      (created : ℕ) (run_id reason : String) {b : Broker} → Step b (close created run_id reason b)
  looks : (now : ℕ) (rid : String) {b : Broker} → Step b (look now rid b)
  pops : (rid : String) {b : Broker} → Step b (pop rid b)
  gives_up : (rid : String) {b : Broker} → Step b (give_up rid b)

-- The brokers that the threads can bring about from an empty one.
pub data Reachable : Broker → Type 0 where
  start : Reachable new_broker
  also : {b c : Broker} → Reachable b → Step b c → Reachable c

All-keep_if : (P : ℕ → Type 0) (p : ℕ → Bool) (qs : List ℕ) → All P qs → All P (keep_if p qs)
unfolding keep_if
All-keep_if P p [] a = a
All-keep_if P p (q ∷ qs) (h, a) = elim (Bool-cases (p q)) [
  | inl kept ↦ rw kept (h, All-keep_if P p qs a)
  | inr gone ↦ rw gone (All-keep_if P p qs a)
]

pub run_or_new-IsSound :
    (created : ℕ) (rid : String) (b : Broker)
    → IsValid b
    → IsSound b.next_queue (run_or_new created (get rid b.runs))
unfolding IsValid IsSound
run_or_new-IsSound created rid b v = elim (Option-cases (get rid b.runs)) [
  | inl absent ↦ rw absent (omega arith, tt)
  | inr (run, found) ↦ rw found (get-All (IsSound b.next_queue) rid run b.runs v found)
]

set_policy-IsSound :
    (n : ℕ) (policy : Option CallbackPolicy) (run : TraceRun)
    → IsSound n run
    → IsSound n (set_policy policy run)
unfolding IsSound
set_policy-IsSound n none run h = h
set_policy-IsSound n (some p) run h = h

-- A broker with one run replaced by a sound one.
put-IsValid :
    (rid : String) (run : TraceRun) (b : Broker)
    → IsSound b.next_queue run
    → IsValid b
    → All (λ e. IsSound b.next_queue e.1) (put rid run b.runs)
unfolding IsValid
put-IsValid rid run b h v = All-values-put (IsSound b.next_queue) rid run b.runs h v

remove-IsValid :
    (n : ℕ) (rid : String) (runs : Dict TraceRun)
    → All (λ e. IsSound n e.1) runs
    → All (λ e. IsSound n e.1) (remove rid runs)
remove-IsValid n rid runs v = All-remove (λ e. IsSound n e.1) rid runs v

below_suc : (n : ℕ) (qs : List ℕ) → All (λ q. q < n) qs → All (λ q. q < n + 1) qs
below_suc n [] a = tt
below_suc n (q ∷ qs) (h, a) = (omega arith, below_suc n qs a)

IsSound-suc : (n : ℕ) (run : TraceRun) → IsSound n run → IsSound (n + 1) run
unfolding IsSound
IsSound-suc n run (e, qs) = (e, below_suc n run.queues qs)

All-IsSound-suc :
    (n : ℕ) (runs : Dict TraceRun)
    → All (λ e. IsSound n e.1) runs
    → All (λ e. IsSound (n + 1) e.1) runs
All-IsSound-suc n [] a = tt
All-IsSound-suc n ((k, run) ∷ runs) (h, a) = (IsSound-suc n run h, All-IsSound-suc n runs a)

configure_run-IsValid :
    (created : ℕ) (run_id : String) (policy : Option CallbackPolicy) (b : Broker)
    → IsValid b
    → IsValid (configure_run created run_id policy b)
unfolding IsValid configure_run
configure_run-IsValid created run_id policy b v = elim (Bool-cases (is_empty (strip run_id))) [
  | inl empty ↦ rw empty v
  | inr named ↦
      let run = run_or_new created (get (strip run_id) b.runs) in
      let s =
        set_policy-IsSound b.next_queue policy run
          (run_or_new-IsSound created (strip run_id) b v) in
      rw named (put-IsValid (strip run_id) (set_policy policy run) b s v)
]

open_stream-IsValid :
    (created : ℕ) (run_id : String) (b : Broker)
    → IsValid b
    → IsValid ((open_stream created run_id b).1)
unfolding IsValid IsSound open_stream
open_stream-IsValid created run_id b v = elim (Bool-cases (is_empty (strip run_id))) [
  | inl empty ↦ rw empty v
  | inr named ↦
      let n = b.next_queue in
      let rid = strip run_id in
      let run = run_or_new created (get rid b.runs) in
      let s = IsSound-suc n run (run_or_new-IsSound created rid b v) in
      let qs : All (λ q. q < n + 1) (run.queues ++ n ∷ []) =
        All-append (λ q. q < n + 1) run.queues (n ∷ []) s.1 (omega arith, tt) in
      rw named (
        All-values-put (IsSound (n + 1)) rid (record run { queues = run.queues ++ n ∷ [] }) b.runs
          (s.0, qs) (All-IsSound-suc n b.runs v))
]

remove_stream-IsValid :
    (run_id : String) (q : ℕ) (b : Broker) → IsValid b → IsValid (remove_stream run_id q b)
unfolding IsValid IsSound remove_stream
remove_stream-IsValid run_id q b v = elim (Bool-cases (is_empty (strip run_id))) [
  | inl empty ↦ rw empty v
  | inr named ↦ elim (Option-cases (get (strip run_id) b.runs)) [
    | inl absent ↦ rw (named, absent) v
    | inr (run, found) ↦
        let s = get-All (IsSound b.next_queue) (strip run_id) run b.runs v found in
        let kept = All-keep_if (λ i. i < b.next_queue) (λ x. not (same_nat x q)) run.queues s.1 in
        rw (named, found) (put-IsValid (strip run_id) (detach q run) b (s.0, kept) v)
  ]
]

deliver-IsValid :
    (emitted : ℕ) (rid : String) (event : Dict Value) (b : Broker)
    → IsValid b
    → IsValid (deliver emitted rid event b)
unfolding IsValid IsSound deliver
deliver-IsValid emitted rid event b v = elim (Option-cases (get rid b.runs)) [
  | inl absent ↦ rw (absent, deliver) v
  | inr (run, found) ↦
      let s = get-All (IsSound b.next_queue) rid run b.runs v found in
      let cut = length-last_n-le max_events_per_run (run.events ++ event ∷ []) in
      rw (found, deliver) (put-IsValid rid (add_event emitted event run) b (cut, s.1) v)
]

close-IsValid :
    (created : ℕ) (run_id reason : String) (b : Broker)
    → IsValid b
    → IsValid (close created run_id reason b)
unfolding IsValid IsSound close
close-IsValid created run_id reason b v = elim (Bool-cases (is_empty (strip run_id))) [
  | inl empty ↦ rw empty v
  | inr named ↦
      let run = run_or_new created (get (strip run_id) b.runs) in
      let s = run_or_new-IsSound created (strip run_id) b v in
      rw named (
        put-IsValid (strip run_id)
          (record run { closed = true; closed_reason = close_reason reason }) b s v)
]

look-IsValid : (now : ℕ) (rid : String) (b : Broker) → IsValid b → IsValid (look now rid b)
unfolding IsValid look
look-IsValid now rid b v = elim (Option-cases (get rid b.runs)) [
  | inl absent ↦ rw (absent, look) v
  | inr (run, found) ↦ elim (Bool-cases (is_stale now run)) [
    | inl old ↦ rw (found, old, look) v
    | inr kept ↦ rw (found, kept, look) v
  ]
]

pop-IsValid : (rid : String) (b : Broker) → IsValid b → IsValid (pop rid b)
unfolding IsValid pop
pop-IsValid rid b v = elim (Bool-cases (elem rid b.stale)) [
  | inl listed ↦ rw (listed, pop) (remove-IsValid b.next_queue rid b.runs v)
  | inr unlisted ↦ rw (unlisted, pop) v
]

Step-IsValid : (b c : Broker) → Step b c → IsValid b → IsValid c
unfolding IsValid emit_policy give_up
Step-IsValid b c (configures created run_id policy) v =
    configure_run-IsValid created run_id policy b v
Step-IsValid b c (opens created run_id) v = open_stream-IsValid created run_id b v
Step-IsValid b c (removes run_id q) v = remove_stream-IsValid run_id q b v
Step-IsValid b c (asks created rid) v =
    put-IsValid rid (run_or_new created (get rid b.runs)) b (run_or_new-IsSound created rid b v) v
Step-IsValid b c (delivers emitted rid event) v = deliver-IsValid emitted rid event b v
Step-IsValid b c (closes created run_id reason) v = close-IsValid created run_id reason b v
Step-IsValid b c (looks now rid) v = look-IsValid now rid b v
Step-IsValid b c (pops rid) v = pop-IsValid rid b v
Step-IsValid b c (gives_up rid) v = v

-- In every broker that threads can bring about from an empty one, by any interleaving of the critical
-- sections of its operations and of the steps of their cleanups, each run keeps at most 600 events, and each queue of a run is one that
-- `open_stream` has given out.
pub Reachable-IsValid : (b : Broker) → Reachable b → IsValid b
unfolding IsValid
Reachable-IsValid b start = tt
Reachable-IsValid c (also {b} r step) = Step-IsValid b c step (Reachable-IsValid b r)
