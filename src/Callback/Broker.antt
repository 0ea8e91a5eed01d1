-- ===== src/Callback/Broker.antt =====
-- work_callback/broker.py: `WorkCallbackBroker`. A `Queue` is a number, and what has been put into it is
-- kept in one store for all of them. Each operation takes the times at which it reads the clock, in
-- milliseconds, and is what it does under the lock; `emit` takes the lock twice, so that it is two steps,
-- between which other threads may act. `_cleanup_locked` follows behind the lock: it looks at each run and
-- then pops the stale ones, and each look and each pop is a step of its own, between which other threads may
-- act too. The summary of an event (formatter.py) is a parameter.
pub mod Queues
pub mod Laws
pub mod Waiting
pub mod Follows
pub mod Stream
use local_ai_rag.Prelude.{
  ℕ, ◌+◌, ◌-◌, String, Bool, true, false, not, ◌&&◌, Option, none, some, List, [], ◌∷◌, ◌++◌,
  if◌then◌else◌, ltb, or_default, length, last_n, keep_if, ◌==◌, same_nat,
}
use local_ai_rag.Text.{is_empty, strip}
use local_ai_rag.Dict.{Dict, get, put, remove}
use local_ai_rag.Value.{Value, Builtins, text}
use local_ai_rag.Pipeline.Result.{Result, ok, err, value_error}
use local_ai_rag.Pipeline.Validator.Rules.{elem}
use local_ai_rag.Callback.Policy.{
  CallbackPolicy, default_callback_policy, callback_policy_from_dict, callback_policy_to_dict,
}

abbrev pub max_events_per_run : ℕ
max_events_per_run = 600

-- Twenty minutes, in milliseconds.
abbrev pub run_ttl : ℕ
run_ttl = 1200000

pub record TraceRun : Type 0 where
  pub events : List (Dict Value)
  pub queues : List ℕ
  pub closed : Bool
  pub closed_reason : String
  pub created_ts : ℕ
  pub last_emit_ts : ℕ
  pub policy : CallbackPolicy

abbrev pub new_trace_run : ℕ → TraceRun
new_trace_run now = record {
  events = [];
  queues = [];
  closed = false;
  closed_reason = "";
  created_ts = now;
  last_emit_ts = now;
  policy = default_callback_policy;
}

pub record Broker : Type 0 where
  pub runs : Dict TraceRun
  pub next_queue : ℕ
  pub contents : ℕ → List (Dict Value)
  -- what the cleanups under way have in their lists `stale` and have not popped yet
  pub stale : List String

abbrev pub new_broker : Broker
new_broker = record { runs = []; next_queue = 0; contents = λ q. []; stale = [] }

abbrev pub is_stale : ℕ → TraceRun → Bool
is_stale now run = run.closed && ltb run_ttl (now - run.last_emit_ts)

-- A cleanup looks at one run.
unfoldable pub look : ℕ → String → Broker → Broker
unfolding get
look now rid b = elim (get rid b.runs) [
  | none ↦ b
  | some run ↦ if is_stale now run then record b { stale = rid ∷ b.stale } else b
]

abbrev pub without_first : String → List String → List String
without_first rid [] = []
without_first rid (x ∷ xs) = let rest = without_first rid xs in if rid == x then xs else x ∷ rest

-- A cleanup pops a run that it has in its list.
unfoldable pub pop : String → Broker → Broker
unfolding remove elem
pop rid b =
    if elem rid b.stale
    then record b { runs = remove rid b.runs; stale = without_first rid b.stale }
    else b

-- A cleanup whose look at the runs raises, since their number has changed, pops nothing of its list.
unfoldable pub give_up : String → Broker → Broker
give_up rid b = record b { stale = without_first rid b.stale }

-- `self._runs.get(rid)`, or a new run.
abbrev pub run_or_new : ℕ → Option TraceRun → TraceRun
run_or_new now run = or_default run (new_trace_run now)

abbrev pub set_policy : Option CallbackPolicy → TraceRun → TraceRun
set_policy none run = run
set_policy (some policy) run = record run { policy = policy }

abbrev pub set_run : String → TraceRun → Broker → Broker
set_run rid run b = record b { runs = put rid run b.runs }

-- `ensure_run` and `configure_run` have one body.
unfoldable pub configure_run : ℕ → String → Option CallbackPolicy → Broker → Broker
unfolding strip get put
configure_run created run_id policy b =
    let rid = strip run_id in
    if is_empty rid
    then b
    else set_run rid (set_policy policy (run_or_new created (get rid b.runs))) b

-- The queue, the events so far, and whether and why the run is closed.
pub record Opened : Type 0 where
  pub queue : ℕ
  pub snapshot : List (Dict Value)
  pub is_closed : Bool
  pub reason : String

abbrev pub opened : ℕ → TraceRun → Opened
opened q run = record {
  queue = q;
  snapshot = run.events;
  is_closed = run.closed;
  reason = run.closed_reason;
}

abbrev pub attach : String → TraceRun → Broker → Broker
attach rid run b = record b {
  runs = put rid (record run { queues = run.queues ++ b.next_queue ∷ [] }) b.runs;
  next_queue = b.next_queue + 1;
}

unfoldable pub open_stream : ℕ → String → Broker → Result Opened × Broker
unfolding strip get put
open_stream created run_id b =
    let rid = strip run_id in
    let run = run_or_new created (get rid b.runs) in
    if is_empty rid
    then (err (value_error "run_id is required"), b)
    else (ok (opened b.next_queue run), attach rid run b)

abbrev pub detach : ℕ → TraceRun → TraceRun
detach q run = record run { queues = keep_if (λ x. not (same_nat x q)) run.queues }

unfoldable pub remove_stream : String → ℕ → Broker → Broker
unfolding strip get put keep_if
remove_stream run_id q b =
    let rid = strip run_id in
    if is_empty rid
    then b
    else elim (get rid b.runs) [ none ↦ b | some run ↦ set_run rid (detach q run) b ]

-- `q.put(item)` of an unbounded queue.
abbrev pub put_item : Dict Value → ℕ → (ℕ → List (Dict Value)) → ℕ → List (Dict Value)
put_item item q contents i = if same_nat q i then contents i ++ item ∷ [] else contents i

-- `for q in list(run.queues)`
unfoldable pub put_all : Dict Value → List ℕ → (ℕ → List (Dict Value)) → ℕ → List (Dict Value)
put_all item [] contents = contents
put_all item (q ∷ qs) contents = put_all item qs (put_item item q contents)

abbrev pub add_event : ℕ → Dict Value → TraceRun → TraceRun
add_event now ui_event run = record run {
  last_emit_ts = now;
  events = last_n max_events_per_run (run.events ++ ui_event ∷ []);
}

-- The first part of `emit`: the run, made if it is missing, and its policy.
unfoldable pub emit_policy : ℕ → String → Broker → CallbackPolicy × Broker
unfolding get put
emit_policy created rid b =
    let run = run_or_new created (get rid b.runs) in (run.policy, set_run rid run b)

-- The second part: the event is kept, and goes to every open stream of the run.
unfoldable pub deliver : ℕ → String → Dict Value → Broker → Broker
unfolding get put put_all last_n
deliver emitted rid ui_event b = elim (get rid b.runs) [
  | none ↦ b
  | some run ↦ record b {
    runs = put rid (add_event emitted ui_event run) b.runs;
    contents = put_all ui_event run.queues b.contents;
  }
]

abbrev deliver_summary : ℕ → String → Option (Dict Value) → Broker → Broker
deliver_summary emitted rid none b = b
deliver_summary emitted rid (some ui_event) b = deliver emitted rid ui_event b

-- `emit` when no other thread acts between its two parts.
unfoldable pub emit :
    (Dict Value → CallbackPolicy → Option (Dict Value))
    → ℕ
    → ℕ
    → String
    → Dict Value
    → Broker
    → Broker
unfolding emit_policy strip deliver
emit summarize created emitted run_id event b =
    let rid = strip run_id in
    let (policy, b') = emit_policy created rid b in
    if is_empty rid then b else deliver_summary emitted rid (summarize event policy) b'

abbrev pub done_item : String → Dict Value
done_item reason = ("type", text "done") ∷ ("reason", text reason) ∷ []

abbrev pub close_reason : String → String
close_reason reason = if is_empty reason then "done" else reason

unfoldable pub close : ℕ → String → String → Broker → Broker
unfolding strip get put put_all
close created run_id reason b =
    let rid = strip run_id in
    let run = run_or_new created (get rid b.runs) in
    if is_empty rid then b else record b {
      runs = put rid (record run { closed = true; closed_reason = close_reason reason }) b.runs;
      contents = put_all (done_item (close_reason reason)) run.queues b.contents;
    }

unfoldable pub run_policy : String → Broker → CallbackPolicy
unfolding strip get
run_policy run_id b =
    let rid = strip run_id in
    if is_empty rid
    then default_callback_policy
    else elim (get rid b.runs) [ none ↦ default_callback_policy | some run ↦ run.policy ]

abbrev pub get_run_policy_dict : String → Broker → Dict Value
get_run_policy_dict run_id b = callback_policy_to_dict (run_policy run_id b)

unfoldable pub set_run_policy_dict :
    ⦃py : Builtins⦄ → ℕ → String → Option (Dict Value) → Broker → Broker
unfolding configure_run callback_policy_from_dict
set_run_policy_dict created run_id raw b =
    configure_run created run_id (some (callback_policy_from_dict raw)) b
