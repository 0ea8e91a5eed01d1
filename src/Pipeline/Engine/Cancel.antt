-- ===== src/Pipeline/Engine/Cancel.antt =====
-- A cancellation that arrives while an action runs.
use local_ai_rag.Prelude.{◌≡◌, String}
use local_ai_rag.Dict.{Dict}
use local_ai_rag.Value.{Value}
use local_ai_rag.Pipeline.Result.{Result, ok, Error}
use local_ai_rag.Pipeline.Definitions.{StepDef}
use local_ai_rag.Pipeline.State.{State}
use local_ai_rag.Pipeline.Registry.{get_action}
use local_ai_rag.Pipeline.Inbox.{Action}
use local_ai_rag.Pipeline.Engine.{Outcome, fail}

abbrev Fails : Outcome → Type 0
Fails o = (e : Error) × (s : State) × (o ≡ fail e s)

-- The registered actions leave the run's id alone.
pub record LeavesRunId (actions : Dict Action) : Type 0 where
  pub run_id :
      (name : String) (a : Action) (step : StepDef) (s : State)
      → get_action name actions ≡ ok a
      → (a step s).1.pipeline_run_id ≡ s.pipeline_run_id
