-- ===== src/Tests/Fixtures.antt =====
-- A small pipeline of two steps, its actions, and a stand-in for Python's builtins on plain ASCII texts.
use local_ai_rag.Prelude.{String, true, Option, none, some, [], ◌∷◌, ◌≡◌, ap, refl}
use local_ai_rag.Text.{strip}
use local_ai_rag.Dict.{Dict, get, get-All}
use local_ai_rag.Value.{Builtins, null, text, flag, num}
use local_ai_rag.Prelude.Int.{pos}
use local_ai_rag.Pipeline.Result.{ok, ok-injective}
use local_ai_rag.Pipeline.Definitions.{StepDef, PipelineDef}
use local_ai_rag.Pipeline.State.{State, new_state}
use local_ai_rag.Pipeline.Inbox.{Action, execute}
use local_ai_rag.Pipeline.Registry.{get_action, or_unknown}

-- On lower-case texts `lower` is the identity, and no text of the tests is a numeral or a template.
instance abbrev pub plain : Builtins
plain = record {
  repr = λ v. "";
  lower = λ s. s;
  upper = λ s. s;
  is_alnum = λ c. true;
  int_of_text = λ s. none;
  int_of_float = λ s. none;
  format = λ s a. some s;
  format_name = λ s a. some s;
}

abbrev pub ask_step : StepDef
ask_step = record {
  id = "ask";
  action = "call_model";
  raw =
      ("id", text "ask")
      ∷ ("action", text "call_model")
      ∷ ("prompt_key", text "answer")
      ∷ ("next", text "done")
      ∷ [];
}

abbrev pub done_step : StepDef
done_step = record {
  id = "done";
  action = "finalize";
  raw = ("id", text "done") ∷ ("action", text "finalize") ∷ ("end", flag true) ∷ [];
}

abbrev pub two_steps : PipelineDef
two_steps = record {
  name = "demo";
  settings =
      ("behavior_version", text "1")
      ∷ ("compat_mode", text "latest")
      ∷ ("entry_step_id", text "ask")
      ∷ ("max_context_tokens", num (pos 1000))
      ∷ [];
  steps = ask_step ∷ done_step ∷ [];
}

-- An action that answers the user and leaves the choice of the next step to the pipeline.
abbrev pub reply : Action
reply step s = (ok null, record s { answer_neutral = some "hi" })

abbrev pub replies : Dict Action
replies = ("call_model", execute reply) ∷ ("finalize", execute reply) ∷ []

or_unknown-ok : (o : Option Action) (a : Action) → or_unknown o ≡ ok a → o ≡ some a
or_unknown-ok none a h = cc h
or_unknown-ok (some b) a h = ap some (ok-injective h)

-- Whatever the name, the action found is the one action registered.
pub replies-only : (name : String) (a : Action) → get_action name replies ≡ ok a → a ≡ execute reply
unfolding get_action
replies-only name a h =
    get-All (λ b. b ≡ execute reply) (strip name) a replies (refl, (refl, tt))
      (or_unknown-ok (get (strip name) replies) a h)

abbrev pub asked : State
asked = record (new_state "what?") { pipeline_run_id = some "r1" }
