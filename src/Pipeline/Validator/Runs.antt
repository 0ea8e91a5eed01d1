-- ===== src/Pipeline/Validator/Runs.antt =====
-- A validated pipeline at run time: which unknown steps `validate` excludes, and which it misses.
use local_ai_rag.Prelude.{ℕ, String, true, some, List, ◌≡◌, ◌≢◌, arith, is_some}
use local_ai_rag.Text.{strip}
use local_ai_rag.Dict.{Dict, get, contains}
use local_ai_rag.Value.{Value, null, text, truthy, Builtins, lookup}
use local_ai_rag.Pipeline.Result.{ok, err}
use local_ai_rag.Pipeline.Definitions.{StepDef, PipelineDef, next, steps_by_id}
use local_ai_rag.Pipeline.State.{State}
use local_ai_rag.Pipeline.Inbox.{Action}
use local_ai_rag.Pipeline.Registry.{get_action}
use local_ai_rag.Pipeline.Engine.{find_step, run_loop, Cancellations}
use local_ai_rag.Pipeline.Engine.Known.{unknown_step, run_loop-ne-unknown_step}
use local_ai_rag.Pipeline.Validator.Laws.{NextResolves, validate-IsSound}
use local_ai_rag.Pipeline.Validator.{validate}

-- The step ids that the pipeline's texts name carry no outer whitespace.
abbrev pub IsTrimmed : Value → Type 0
IsTrimmed (text t) = strip t ≡ t
IsTrimmed v = Unit

-- What the actions of a pipeline's steps have to keep to: in every state they answer with a step of
-- the pipeline, or with nothing, and do not raise the engine's own error.
pub record AnswersKnown (actions : Dict Action) (steps : Dict StepDef) : Type 0 where
  pub answers :
      (sid : String) (step : StepDef) (a : Action) (s : State) (v : Value)
      → get sid steps ≡ some step
      → get_action step.action actions ≡ ok a
      → (a step s).0 ≡ ok v
      → truthy v ≡ true
      → is_some (find_step v steps) ≡ true
  pub raises :
      (sid : String) (step : StepDef) (a : Action) (s : State)
      → get sid steps ≡ some step
      → get_action step.action actions ≡ ok a
      → (a step s).0 ≢ err unknown_step

known_text :
    (s : String) (steps : Dict StepDef)
    → contains s steps ≡ true
    → is_some (find_step (text s) steps) ≡ true
unfolding find_step
known_text s steps h = ground arith

known_next :
    (v : Value) (steps : Dict StepDef)
    → NextResolves steps v
    → IsTrimmed v
    → truthy v ≡ true
    → is_some (find_step v steps) ≡ true
unfolding truthy
known_next null steps r t h = cc
known_next (text s) steps r t h = known_text s steps (rw t at r)
known_next v steps r t h = absurd r

-- Once `validate` has accepted a pipeline whose entry and `next` texts carry no outer whitespace,
-- and the actions of its steps, in every state, answer with known steps and do not raise the engine's own error, the run's loop
-- never ends with an unknown step.
pub validated_run-ne-unknown_step :
    ⦃py : Builtins⦄ (pipeline : PipelineDef) (warnings : List String) (actions : Dict Action)
    (checks : Cancellations) (entry : String) (fuel : ℕ) (s s' : State)
    → validate pipeline ≡ ok warnings
    → lookup "entry_step_id" pipeline.settings ≡ text entry
    → strip entry ≡ entry
    → ((sid : String) (step : StepDef)
        → get sid (steps_by_id pipeline.steps) ≡ some step
        → IsTrimmed (next step))
    → AnswersKnown actions (steps_by_id pipeline.steps)
    → run_loop actions checks (steps_by_id pipeline.steps) fuel 0 (text (strip entry)) s
      ≢ some (err unknown_step, s')
validated_run-ne-unknown_step p w actions checks entry fuel s s' h e trim trims k =
    let sound = validate-IsSound p w h in
    run_loop-ne-unknown_step actions checks (steps_by_id p.steps) (strip entry) fuel s s'
      (record {
        nexts = λ sid step g t.
            known_next (next step) (steps_by_id p.steps) (sound.nexts sid step g) (trims sid step g)
              t;
        answers = k.answers;
        raises = k.raises;
      })
      (known_text (strip entry) (steps_by_id p.steps) (rw trim (rw e at sound.entry)))
