-- ===== src/Tests/Flow.antt =====
-- The validator, the budget contract and the inbox.
use local_ai_rag.Prelude.{String, Option, none, some, List, [], ◌∷◌, ◌++◌, ◌≡◌, refl}
use local_ai_rag.Prelude.Int.{ℤ, pos}
use mathlib.Core.List.{Perm}
use local_ai_rag.Text.{strip}
use local_ai_rag.Dict.{put}
use local_ai_rag.Value.{text, num, lookup}
use local_ai_rag.Pipeline.Result.{Result, ok, err, Error}
use local_ai_rag.Pipeline.Definitions.{PipelineDef, steps_by_id}
use local_ai_rag.Pipeline.State.{State, Message}
use local_ai_rag.Pipeline.Inbox.{enqueue_message, consume_inbox_for_step}
use local_ai_rag.Pipeline.Inbox.Laws.{message, consume-perm, consume-enqueue}
use local_ai_rag.Pipeline.Inbox.{execute}
use local_ai_rag.Pipeline.Engine.{run_loop, run_step}
use local_ai_rag.Pipeline.Engine.Known.{unknown_step}
use local_ai_rag.Pipeline.Validator.{validate}
use local_ai_rag.Pipeline.Validator.Laws.{IsSound, validate-IsSound}
use local_ai_rag.Pipeline.Budget.{Enforced, auto_clamp, max_context_tokens}
use local_ai_rag.Pipeline.Budget.Enforce.{enforce_budget_contract}
use local_ai_rag.Tests.Fixtures.{plain, done_step, two_steps, replies, asked}

-- A counter of one token for each text, and one prompt file for all keys.
abbrev one_token : Option (String → ℤ)
one_token = some (λ s. pos 1)

abbrev a_prompt : String → Option String
a_prompt key = some "Answer."

-- A window that the context asked for does not fit into is met by a lower context.
abbrev enforced : Result Enforced
enforced =
    enforce_budget_contract two_steps two_steps.settings (pos 1200) (pos 256) one_token a_prompt
      (some "auto_clamp")

abbrev clamped : Enforced
clamped = record {
  steps = two_steps.steps;
  settings = put "max_context_tokens" (num (pos 751)) two_steps.settings;
  policy = auto_clamp;
  max_context_tokens_before = pos 1000;
  max_context_tokens_after = pos 751;
  max_history_tokens = pos 0;
  clamps =
      record { kind = max_context_tokens; step_id = none; before = pos 1000; after = pos 751 } ∷ [];
}

validate_test : validate two_steps ≡ ok []
unfolding validate
validate_test = refl

validate-IsSound_example : IsSound two_steps
validate-IsSound_example = validate-IsSound two_steps [] validate_test

-- A `next` with outer whitespace passes the validator, and the run then meets an unknown step.
abbrev padded : PipelineDef
padded = record {
  name = "padded";
  settings = two_steps.settings;
  steps =
      record {
        id = "ask";
        action = "call_model";
        raw =
            ("id", text "ask")
            ∷ ("action", text "call_model")
            ∷ ("prompt_key", text "answer")
            ∷ ("next", text " done")
            ∷ [];
      }
      ∷ done_step
      ∷ [];
}

padded_test : validate padded ≡ ok []
unfolding validate
padded_test = refl

abbrev failed : Option (Result (Unit {0}) × State) → Option Error
failed none = none
failed (some (ok u, s)) = none
failed (some (err e, s)) = some e

padded_run_test :
    failed (run_loop replies (λ n. none) (steps_by_id padded.steps) 5 0 (text "ask") asked)
    ≡ some unknown_step
unfolding run_loop run_step steps_by_id put execute lookup
padded_run_test = refl

abbrev mail : List Message
mail =
    record { target_step_id = "ask"; topic = "hint"; payload = none }
    ∷ record { target_step_id = "done"; topic = "note"; payload = none }
    ∷ []

consume-perm_example :
    Perm mail ((consume_inbox_for_step "ask" mail).0 ++ (consume_inbox_for_step "ask" mail).1)
consume-perm_example = consume-perm "ask" mail

abbrev more_mail : List Message
more_mail = mail ++ record { target_step_id = "ask"; topic = "again"; payload = none } ∷ []

enqueue_test : enqueue_message " ask" "again " none mail ≡ ok more_mail
unfolding enqueue_message strip
enqueue_test = refl

consume-enqueue_example : consume_inbox_for_step "ask" more_mail ≡ (
  (consume_inbox_for_step "ask" mail).0 ++ message " ask" "again " none ∷ [],
  (consume_inbox_for_step "ask" mail).1,
)
unfolding strip
consume-enqueue_example =
    consume-enqueue " ask" "again " "ask" none mail more_mail enqueue_test refl
