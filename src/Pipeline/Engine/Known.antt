-- ===== src/Pipeline/Engine/Known.antt =====
-- Pipelines whose every branch leads to a step: the loop never meets an unknown one.
use local_ai_rag.Prelude.{
  ℕ, zero, suc, ◌+◌, ◌≡◌, ◌≢◌, refl, String, true, Option, none, some, arith, ap, ◌∙◌, Option-cases,
  inl, inr, is_some, eq_iff,
}
use local_ai_rag.Dict.{Dict, get}
use local_ai_rag.Value.{Value, text, truthy}
use local_ai_rag.Pipeline.Result.{Result, ok, err, Error, type_error, key_error}
use local_ai_rag.Pipeline.Definitions.{StepDef, next}
use local_ai_rag.Pipeline.State.{State}
use local_ai_rag.Pipeline.Registry.{get_action, or_unknown}
use local_ai_rag.Pipeline.Inbox.{Action}
use local_ai_rag.Pipeline.Engine.{
  fail, Cancellations, cancel_reason, call_action, retry, find_step, after_step, run_step, run_loop,
  run_action, finish_step,
}
use local_ai_rag.Pipeline.Engine.Laws.{Outcome-cases}
use local_ai_rag.Pipeline.Engine.Ending.{WentOn, run_step-WentOn, find_step-eq-some}

abbrev pub unknown_step : Error
unknown_step = key_error "Unknown step id"

-- In every state, every branch out of a step of the pipeline leads to a step: a `next` that Python counts as true, and every
-- such answer of the step's action; and no step's action raises the engine's own error for an unknown step.
pub record IsClosed (actions : Dict Action) (steps : Dict StepDef) : Type 0 where
  pub nexts :
      (sid : String) (step : StepDef)
      → get sid steps ≡ some step
      → truthy (next step) ≡ true
      → is_some (find_step (next step) steps) ≡ true
  pub answers :
      (sid : String) (step : StepDef) (a : Action) (s : State) (v : Value)
      → get sid steps ≡ some step
      → get_action step.action actions ≡ ok a
      → (a step s).0 ≡ ok v
      → truthy v ≡ true
      → is_some (find_step v steps) ≡ true
  pub raises :
      (sid : String) (step : StepDef) (a : Action) (s : State)
      → get sid steps ≡ some step
      → get_action step.action actions ≡ ok a
      → (a step s).0 ≢ err unknown_step

err-injective :
    {e e' : Error} {s s' : State}
    → ◌≡◌ {A = Option (Result (Unit {0}) × State)} (some (err e, s)) (some (err e', s'))
    → e ≡ e'
err-injective h = cc

messages_differ : ◌≢◌ {A = String} "Unknown action" "Unknown step id"
messages_differ = ground (arith, eq_iff "Unknown action" "Unknown step id")

or_unknown_raises : (o : Option Action) → or_unknown o ≢ err unknown_step
or_unknown_raises none = λ k. messages_differ (cc k)
or_unknown_raises (some a) = λ k. cc k

get_action_raises :
    (name : String) (actions : Dict Action) → get_action name actions ≢ err unknown_step
unfolding get_action
get_action_raises name actions = or_unknown_raises _

module _ (actions : Dict Action) (checks : Cancellations) (steps : Dict StepDef)
    (c : IsClosed actions steps) where
  call_raises :
      (sid : String) (a : Action) (step : StepDef) (s : State)
      → get sid steps ≡ some step
      → get_action step.action actions ≡ ok a
      → (call_action a step s).0 ≢ err unknown_step
  unfolding call_action
  call_raises sid a step s p g = go (a step s) (c.raises sid step a s p g)
    where
      go :
          (r : Result Value × State)
          → r.0 ≢ err unknown_step
          → (retry a step r).0 ≢ err unknown_step
      go (err (type_error m), s') h = c.raises sid step a s' p g
      go (ok v, s') h = h
      go (err e, s') h = h

  finish_raises :
      (n : ℕ) (step : StepDef) (r : Result Value × State) (s' : State)
      → r.0 ≢ err unknown_step
      → finish_step actions checks steps n step r ≢ fail unknown_step s'
  unfolding after_step
  finish_raises n step (err e, s) s' h k = h (cc k)
  finish_raises n step (ok v, s) s' h k = ground arith

  action_raises :
      (n : ℕ) (sid : String) (step : StepDef) (s s' : State)
      → get sid steps ≡ some step
      → run_action actions checks steps n step (get_action step.action actions) s
        ≢ fail unknown_step s'
  action_raises n sid step s s' p =
      go (get_action step.action actions) (get_action_raises step.action actions) (λ a e. e)
    where
      go :
          (r : Result Action)
          → r ≢ err unknown_step
          → ((a : Action) → r ≡ ok a → get_action step.action actions ≡ ok a)
          → run_action actions checks steps n step r s ≢ fail unknown_step s'
      go (err e) h f = λ k. h (cc k)
      go (ok a) h f =
          finish_raises n step (call_action a step s) s' (call_raises sid a step s p (f a refl))

  run_step_raises :
      (n : ℕ) (current : Value) (s s' : State)
      → is_some (find_step current steps) ≡ true
      → run_step actions checks steps n current s ≢ fail unknown_step s'
  unfolding run_step
  run_step_raises n current s s' known k = elim (Option-cases (cancel_reason checks (n + n) s)) [
    | inr (why, e) ↦ cc (rw (e, run_step) at k)
    | inl e ↦ elim (Option-cases (find_step current steps)) [
      | inl e' ↦ cc (rw e' at known)
      | inr ((sid, step), e') ↦
          action_raises n sid step _ s' (find_step-eq-some current steps sid step e').1
            (rw (e, e', run_step) at k)
    ]
  ]

  known_branch :
      (current v : Value)
      → WentOn actions checks steps current v
      → is_some (find_step v steps) ≡ true
  known_branch current v (sid, step, a, found, got, inl (s, e), t) =
      c.answers sid step a s v (find_step-eq-some current steps sid step found).1 got e t
  known_branch current v (sid, step, a, found, got, inr e, t) =
      rw (← e) (c.nexts sid step (find_step-eq-some current steps sid step found).1 (rw e t))

  loop_raises :
      (fuel n : ℕ) (current : Value) (s s' : State)
      → is_some (find_step current steps) ≡ true
      → run_loop actions checks steps fuel n current s ≢ some (err unknown_step, s')
  unfolding run_loop
  loop_raises zero n current s s' known k = cc
  loop_raises (suc fuel) n current s s' known k =
      elim (Outcome-cases (run_step actions checks steps n current s)) [
        | inl (v, s₁, e) ↦
            loop_raises fuel (suc n) v s₁ s'
              (known_branch current v (run_step-WentOn actions checks steps n current v s s₁ e))
              (rw (e, run_loop) at k)
        | inr (inl (s₁, e)) ↦ cc (rw (e, run_loop) at k)
        | inr (inr (er, s₁, e)) ↦
            run_step_raises n current s s₁ known
              (e ∙ ap (λ x. fail x s₁) (err-injective (rw (e, run_loop) at k)))
      ]

-- Where, in every state, every branch out of a step of the pipeline leads to a step, and no action of these steps
-- raises the error "Unknown step id" itself, the loop from a known step never ends with it.
pub run_loop-ne-unknown_step :
    (actions : Dict Action) (checks : Cancellations) (steps : Dict StepDef) (entry : String)
    (fuel : ℕ) (s s' : State)
    → IsClosed actions steps
    → is_some (find_step (text entry) steps) ≡ true
    → run_loop actions checks steps fuel 0 (text entry) s ≢ some (err unknown_step, s')
run_loop-ne-unknown_step actions checks steps entry fuel s s' c known =
    loop_raises actions checks steps c fuel 0 (text entry) s s' known
