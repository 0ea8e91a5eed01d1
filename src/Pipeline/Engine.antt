-- ===== src/Pipeline/Engine.antt =====
-- engine.py: `PipelineEngine.run`. The actions are those of a registry that the caller passes. What
-- the cancellation registry answers, which other threads change, is a function from the number of
-- the check to the reason, if the run has been cancelled by then. Tracing is left out.
pub mod Laws
pub mod Ending
pub mod Known
pub mod Cancel
use local_ai_rag.Prelude.{
  ℕ, zero, suc, ◌+◌, String, Bool, true, false, not, ◌&&◌, Option, none, some, List, [], ◌∷◌, ◌++◌,
  if◌then◌else◌,
}
use local_ai_rag.Text.{is_empty, strip_opt}
use local_ai_rag.Dict.{Dict, get}
use local_ai_rag.Value.{Value, null, text, truthy, lookup}
use local_ai_rag.Pipeline.Result.{
  Result, ok, err, Error, value_error, key_error, runtime_error, pipeline_cancelled, type_error,
  ◌>>=◌, ◌>>◌, require,
}
use local_ai_rag.Pipeline.Definitions.{StepDef, PipelineDef, next, is_end, steps_by_id, strip_name}
use local_ai_rag.Pipeline.State.{State, or_else, model_input_en_or_fallback}
use local_ai_rag.Pipeline.Registry.{get_action}
use local_ai_rag.Pipeline.Inbox.{Action}

pub record PipelineResult : Type 0 where
  pub steps_used : ℕ
  pub step_trace : List String
  pub answer_neutral : Option String
  pub answer_translated : Option String
  pub final_answer : String
  pub query_type : String
  pub model_input_en : String

-- How one round of the loop ends.
pub data Outcome : Type 0 where
  go_on : Value → State → Outcome
  stop : State → Outcome
  fail : Error → State → Outcome

-- The answer of the n-th check, by the loop's own count.
abbrev pub Cancellations : Type 0
Cancellations = ℕ → Option String

-- `_check_cancelled`: a run without an id is never cancelled.
unfoldable pub cancel_reason : Cancellations → ℕ → State → Option (String × String)
unfolding or_else
cancel_reason cancels n s = elim s.pipeline_run_id [
  | none ↦ none
  | some rid ↦ if is_empty rid then none else elim (cancels n) [
    | none ↦ none
    | some reason ↦ some (rid, or_else (some reason) "cancelled")
  ]
]

abbrev pub raise_cancelled : String × String → State → Outcome
raise_cancelled (rid, reason) s =
    fail (pipeline_cancelled rid reason) (record s { cancel_event_emitted = true })

-- `steps_by_id.get(current_step_id)`
unfoldable pub find_step : Value → Dict StepDef → Option (String × StepDef)
unfolding get
find_step (text sid) steps = elim (get sid steps) [ none ↦ none | some step ↦ some (sid, step) ]
find_step v steps = none

-- Where the run goes after a step: it stops at an end step, else the action's answer leads, else
-- the step's `next`.
unfoldable pub after_step : StepDef → Value → State → Outcome
unfolding is_end truthy
after_step step answer s =
    if is_end step
    then stop s
    else if truthy answer
    then go_on answer s
    else if truthy (next step)
    then go_on (next step) s
    else stop s

-- `except TypeError`: the call is made once more, with keyword arguments.
abbrev retry : Action → StepDef → Result Value × State → Result Value × State
retry action step (err (type_error m), s) = action step s
retry action step r = r

unfoldable pub call_action : Action → Action
call_action action step s = retry action step (action step s)

module _ (actions : Dict Action) (cancels : Cancellations) (steps : Dict StepDef) where
  -- After the action: the second check, then the choice of the next step.
  abbrev finish_step : ℕ → StepDef → Result Value × State → Outcome
  finish_step n step (err e, s) = fail e s
  finish_step n step (ok answer, s) = elim (cancel_reason cancels (n + n + 1) s) [
    | some why ↦ raise_cancelled why s
    | none ↦ after_step step answer s
  ]

  abbrev run_action : ℕ → StepDef → Result Action → State → Outcome
  run_action n step (err e) s = fail e s
  run_action n step (ok action) s = finish_step n step (call_action action step s)

  abbrev enter_step : ℕ → Option (String × StepDef) → State → Outcome
  enter_step n none s = fail (key_error "Unknown step id") s
  enter_step n (some (sid, step)) s =
      run_action n step (get_action step.action actions)
        (record s { steps_used = s.steps_used + 1; step_trace = s.step_trace ++ sid ∷ [] })

  -- The n-th round of `while current_step_id`.
  unfoldable pub run_step : ℕ → Value → State → Outcome
  unfolding cancel_reason after_step get_action find_step call_action
  run_step n current s = elim (cancel_reason cancels (n + n) s) [
    | some why ↦ raise_cancelled why s
    | none ↦ enter_step n (find_step current steps) s
  ]

  -- The loop, on fuel; `none` means that the fuel ran out.
  unfoldable pub run_loop : ℕ → ℕ → Value → State → Option (Result (Unit {0}) × State)
  run_loop zero n current s = none
  run_loop (suc fuel) n current s = elim (run_step n current s) [
    | go_on current' s' ↦ run_loop fuel (suc n) current' s'
    | stop s' ↦ some (ok tt, s')
    | fail e s' ↦ some (err e, s')
  ]

-- The answer that the caller sees.
unfoldable pub resolve_final_answer : State → String
unfolding or_else
resolve_final_answer s =
    let fallback = or_else s.answer_neutral "" in
    or_else s.final_answer
      (if s.translate_chat then or_else s.answer_translated fallback else fallback)

abbrev no_messages {ℓ} : {A : Type ℓ} → List A → Bool
no_messages [] = true
no_messages (m ∷ ms) = false

-- What follows the loop: the policy on messages left over, and the result.
unfoldable pub conclude : Bool → Result (Unit {0}) × State → Result PipelineResult × State
unfolding resolve_final_answer model_input_en_or_fallback
conclude fail_fast (err e, s) = (err e, s)
conclude fail_fast (ok _, s) =
    if not (no_messages s.inbox) && fail_fast
    then (err (runtime_error "PIPELINE_INBOX_NOT_EMPTY"), s)
    else (let answer = resolve_final_answer s in
        let s' : State = record s { final_answer = some answer } in
        (
          ok (record {
            steps_used = s.steps_used;
            step_trace = s.step_trace;
            answer_neutral = s.answer_neutral;
            answer_translated = s.answer_translated;
            final_answer = answer;
            query_type = or_else s.query_type "";
            model_input_en = model_input_en_or_fallback s';
          }),
          s',
        ))

abbrev start_run : PipelineDef → State → State
start_run pipeline s = record s { pipeline_name = pipeline.name; steps_used = 0; step_trace = [] }

abbrev conclude_run :
    Bool → Option (Result (Unit {0}) × State) → Option (Result PipelineResult × State)
conclude_run fail_fast none = none
conclude_run fail_fast (some (r, s)) = some (conclude fail_fast (r, s))

abbrev run_from :
    ℕ
    → Bool
    → Dict Action
    → Cancellations
    → PipelineDef
    → String
    → State
    → Option (Result PipelineResult × State)
run_from fuel fail_fast actions cancels pipeline entry s =
    if is_empty entry
    then some (err (value_error "Pipeline settings must define 'entry_step_id'."), s)
    else conclude_run fail_fast (
        run_loop actions cancels (steps_by_id pipeline.steps) fuel 0 (text entry)
          (start_run pipeline s))

-- `run`, with the fuel for its loop and the inbox policy of the environment.
unfoldable pub run :
    ℕ
    → Bool
    → Dict Action
    → Cancellations
    → PipelineDef
    → State
    → Option (Result PipelineResult × State)
unfolding run_loop conclude steps_by_id strip_name
run fuel fail_fast actions cancels pipeline s =
    elim (strip_name (lookup "entry_step_id" pipeline.settings)) [
      | err e ↦ some (err e, s)
      | ok entry ↦ run_from fuel fail_fast actions cancels pipeline entry s
    ]
