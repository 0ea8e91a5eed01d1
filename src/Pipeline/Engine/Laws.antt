-- ===== src/Pipeline/Engine/Laws.antt =====
-- `PipelineEngine.run`: what its loop records, when it ends, and what a cancellation stops.
use local_ai_rag.Prelude.{
  ◌+◌, ◌≡◌, refl, String, true, Option, none, some, [], ◌∷◌, ◌++◌, length, All, inl, inr, is_some,
  ◌⊎◌,
}
use local_ai_rag.Dict.{Dict, get}
use local_ai_rag.Value.{Value}
use local_ai_rag.Pipeline.Result.{Result, ok, Error}
use local_ai_rag.Pipeline.Definitions.{StepDef}
use local_ai_rag.Pipeline.State.{State}
use local_ai_rag.Pipeline.Registry.{get_action}
use local_ai_rag.Pipeline.Inbox.{Action}
use local_ai_rag.Pipeline.Engine.{Outcome, go_on, stop, fail, find_step}

-- The state that a round, or a run, leaves behind.
abbrev left : Outcome → State
left (go_on v s) = s
left (stop s) = s
left (fail e s) = s

abbrev pub left_by_run : State → Option (Result (Unit {0}) × State) → State
left_by_run s none = s
left_by_run s (some (r, s')) = s'

-- The three ways in which a round ends.
abbrev pub OutcomeCases : Outcome → Type 0
OutcomeCases o =
    ((v : Value) × (s : State) × (o ≡ go_on v s))
    ⊎ ((s : State) × (o ≡ stop s))
    ⊎ ((e : Error) × (s : State) × (o ≡ fail e s))

pub Outcome-cases : (o : Outcome) → OutcomeCases o
Outcome-cases (go_on v s) = inl (v, s, refl)
Outcome-cases (stop s) = inr (inl (s, refl))
Outcome-cases (fail e s) = inr (inr (e, s, refl))

-- An invariant of the states that a run goes through: the engine's own writes and the registered
-- actions keep it.
pub record Kept (actions : Dict Action) (steps : Dict StepDef) (P : State → Type 0) : Type 0 where
  pub cancels : (s : State) → P s → P (record s { cancel_event_emitted = true })
  pub enters :
      (current : Value) (sid : String) (step : StepDef) (s : State)
      → find_step current steps ≡ some (sid, step)
      → P s
      → P (record s { steps_used = s.steps_used + 1; step_trace = s.step_trace ++ sid ∷ [] })
  pub acts :
      (name : String) (a : Action) (step : StepDef) (s : State)
      → get_action name actions ≡ ok a
      → P s
      → P (a step s).1

-- No registered action writes the engine's own record of the run.
pub record LeavesRecord (actions : Dict Action) : Type 0 where
  pub trace :
      (name : String) (a : Action) (step : StepDef) (s : State)
      → get_action name actions ≡ ok a
      → (a step s).1.step_trace ≡ s.step_trace
  pub used :
      (name : String) (a : Action) (step : StepDef) (s : State)
      → get_action name actions ≡ ok a
      → (a step s).1.steps_used ≡ s.steps_used

-- The trace names steps of the pipeline only, and has one entry for each step counted.
pub record IsRecorded (steps : Dict StepDef) (s : State) : Type 0 where
  pub counted : s.steps_used ≡ length s.step_trace
  pub known : All (λ sid. is_some (get sid steps) ≡ true) s.step_trace
