-- ===== src/Tests/Engine.antt =====
-- The engine's loop on the pipeline of two steps.
use local_ai_rag.Prelude.{
  ℕ, String, true, none, some, [], ◌∷◌, ◌≡◌, ◌≢◌, refl, sym, subst, ◌∙◌, arith, if◌then◌else◌, ◌==◌,
  eq_iff, is_some, some-injective, ◌⊎◌, Bool-cases, inl, inr,
}
use local_ai_rag.Text.{strip}
use local_ai_rag.Dict.{Dict, get, put}
use local_ai_rag.Value.{null, text, truthy, lookup}
use local_ai_rag.Pipeline.Result.{Result, ok, err, ok-injective}
use local_ai_rag.Pipeline.Definitions.{StepDef, next, steps_by_id}
use local_ai_rag.Pipeline.State.{State}
use local_ai_rag.Pipeline.Registry.{get_action}
use local_ai_rag.Pipeline.Inbox.{Action, execute}
use local_ai_rag.Pipeline.Engine.{Cancellations, run_loop, find_step}
use local_ai_rag.Pipeline.Engine.Ending.{GoesForward, run_loop-ends}
use local_ai_rag.Pipeline.Engine.Known.{IsClosed, unknown_step, run_loop-ne-unknown_step}
use local_ai_rag.Pipeline.Validator.Runs.{AnswersKnown, validated_run-ne-unknown_step, IsTrimmed}
use local_ai_rag.Pipeline.Validator.{validate}
use local_ai_rag.Callback.Cancel.{CancelRegistry, request_cancel}
use local_ai_rag.Tests.Fixtures.{
  plain, ask_step, done_step, two_steps, replies, replies-only, asked,
}

abbrev steps : Dict StepDef
steps = ("ask", ask_step) ∷ ("done", done_step) ∷ []

abbrev never : Cancellations
never n = none

-- Cancelled while the first action runs.
abbrev at_once : Cancellations
at_once n = some "stop"

steps_by_id_test : steps_by_id two_steps.steps ≡ steps
unfolding steps_by_id put
steps_by_id_test = refl

-- The action answers nothing.
replies-null :
    (name : String) (a : Action) (step : StepDef) (s : State)
    → get_action name replies ≡ ok a
    → (a step s).0 ≡ ok null
unfolding execute
replies-null name a step s h =
    subst (λ (b : Action). (b step s).0 ≡ ok null) (sym (replies-only name a h)) refl

replies-AnswersKnown : AnswersKnown replies steps
unfolding truthy
replies-AnswersKnown = record {
  answers = λ sid step a s v p h e t.
      (let e' : null ≡ v = ok-injective (sym (replies-null step.action a step s h) ∙ e) in
        absurd (cc (subst (λ w. truthy w ≡ true) (sym e') t)));
  raises = λ sid step a s p h e. cc (sym (replies-null step.action a step s h) ∙ e);
}

abbrev rank : String → ℕ
rank t = if t == "ask" then 1 else 0

-- A lookup finds one of the two steps.
found_cases :
    (sid : String) (step : StepDef)
    → get sid steps ≡ some step
    → ((sid ≡ "ask") × (step ≡ ask_step)) ⊎ ((sid ≡ "done") × (step ≡ done_step))
unfolding get
found_cases sid step h = elim (Bool-cases ("ask" == sid)) [
  | inl is_ask ↦ inl (sym ((eq_iff "ask" sid).0 is_ask), sym (some-injective (rw is_ask at h)))
  | inr other ↦ elim (Bool-cases ("done" == sid)) [
    | inl is_done ↦
        inr (sym ((eq_iff "done" sid).0 is_done), sym (some-injective (rw (other, is_done) at h)))
    | inr neither ↦ cc (rw (other, neither) at h)
  ]
]

replies-GoesForward : GoesForward replies steps rank
unfolding lookup get
replies-GoesForward = record {
  nexts = λ sid t step h e. elim (found_cases sid step h) [
    | inl (i, same) ↦
        let to : "done" ≡ t = cc (subst (λ (x : StepDef). next x ≡ text t) same e) in
        rw (i, sym to) (omega arith)
    | inr (i, same) ↦ absurd (cc (subst (λ (x : StepDef). next x ≡ text t) same e))
  ];
  answers = λ sid t step a s h g e. absurd (cc (sym (replies-null step.action a step s g) ∙ e));
}

replies-IsClosed : IsClosed replies steps
unfolding lookup find_step truthy get
replies-IsClosed = record {
  nexts = λ sid step h t. elim (found_cases sid step h) [
    | inl (i, same) ↦ rw same refl
    | inr (i, same) ↦ absurd (cc (rw same at t))
  ];
  answers = replies-AnswersKnown.answers;
  raises = replies-AnswersKnown.raises;
}

ask_found : is_some (find_step (text "ask") steps) ≡ true
unfolding find_step get
ask_found = refl

run_loop-ends_example :
    (r : Result (Unit {0}) × State) × (run_loop replies never steps 3 0 (text "ask") asked ≡ some r)
run_loop-ends_example =
    run_loop-ends replies never steps rank "ask" asked 3 replies-GoesForward (omega arith)

run_loop-ne-unknown_step_example :
    run_loop replies never steps 5 0 (text "ask") asked ≢ some (err unknown_step, asked)
run_loop-ne-unknown_step_example =
    run_loop-ne-unknown_step replies never steps "ask" 5 asked asked replies-IsClosed ask_found

abbrev cancelled_at_once : ℕ → CancelRegistry
cancelled_at_once n = request_cancel 0 1 "r1" "client_cancel" []

same_steps : steps ≡ steps_by_id two_steps.steps
same_steps = sym steps_by_id_test

IsTrimmed_lem :
    (sid : String) (step : StepDef)
    → get sid (steps_by_id two_steps.steps) ≡ some step
    → IsTrimmed (next step)
unfolding strip lookup get
IsTrimmed_lem sid step h =
    elim (found_cases sid step (subst (λ d. get sid d ≡ some step) steps_by_id_test h)) [
      | inl (i, same) ↦ rw same refl
      | inr (i, same) ↦ rw same tt
    ]

entry_test : strip "ask" ≡ "ask"
unfolding strip
entry_test = refl

validate_two_test : validate two_steps ≡ ok []
unfolding validate
validate_two_test = refl

entry_id_test : lookup "entry_step_id" two_steps.settings ≡ text "ask"
unfolding lookup get
entry_id_test = refl

validated_run-ne-unknown_step_example :
    run_loop replies never (steps_by_id two_steps.steps) 5 0 (text (strip "ask")) asked
    ≢ some (err unknown_step, asked)
validated_run-ne-unknown_step_example =
    validated_run-ne-unknown_step two_steps [] replies never "ask" 5 asked asked validate_two_test
      entry_id_test entry_test IsTrimmed_lem
      (subst (AnswersKnown replies) same_steps replies-AnswersKnown)
