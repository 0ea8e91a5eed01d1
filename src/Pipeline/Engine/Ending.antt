-- ===== src/Pipeline/Engine/Ending.antt =====
-- What a round that goes on has done, and the end of the loop in pipelines that only go forward.
use local_ai_rag.Prelude.{
  ℕ, zero, suc, ◌+◌, ◌<◌, ◌≡◌, refl, String, true, Option, none, some, arith, Option-cases, inl,
  inr, ◌⊎◌,
}
use local_ai_rag.Dict.{Dict, get}
use local_ai_rag.Value.{Value, text, truthy}
use local_ai_rag.Pipeline.Result.{Result, ok, err, type_error}
use local_ai_rag.Pipeline.Definitions.{StepDef, next}
use local_ai_rag.Pipeline.State.{State}
use local_ai_rag.Pipeline.Registry.{get_action}
use local_ai_rag.Pipeline.Inbox.{Action}
use local_ai_rag.Pipeline.Engine.{
  go_on, Cancellations, cancel_reason, call_action, retry, find_step, after_step, run_step,
  run_loop, enter_step, run_action, finish_step,
}
use local_ai_rag.Pipeline.Engine.Laws.{Outcome-cases}

module _ (actions : Dict Action) (checks : Cancellations) (steps : Dict StepDef) where
  -- What a round that goes on to `v` has done: it found its step and its action, and `v` is the
  -- action's answer or the step's `next`.
  abbrev pub WentOn : Value → Value → Type 0
  WentOn current v =
      (sid : String) × (step : StepDef) × (a : Action) × (find_step current steps
        ≡ some (sid, step))
      × (get_action step.action actions ≡ ok a)
      × (((s : State) × ((a step s).0 ≡ ok v)) ⊎ (next step ≡ v))
      × (truthy v ≡ true)

  retry-answer :
      (step : StepDef) (a : Action) (r : Result Value × State) (v : Value)
      → (retry a step r).0 ≡ ok v
      → (r.0 ≡ ok v) ⊎ ((a step r.1).0 ≡ ok v)
  retry-answer step a (err (type_error m), s) v h = inr h
  retry-answer step a (ok w, s) v h = inl h
  retry-answer step a (err _, s) v h = inl h

  call-answer :
      (step : StepDef) (a : Action) (s : State) (v : Value)
      → (call_action a step s).0 ≡ ok v
      → (s₁ : State) × ((a step s₁).0 ≡ ok v)
  unfolding call_action
  call-answer step a s v h = elim (retry-answer step a (a step s) v h) [
    | inl e ↦ (s, e)
    | inr e ↦ ((a step s).1, e)
  ]

  finish-go_on :
      (n : ℕ) (step : StepDef) (r : Result Value × State) (v : Value) (s' : State)
      → finish_step actions checks steps n step r ≡ go_on v s'
      → ((r.0 ≡ ok v) ⊎ (next step ≡ v)) × (truthy v ≡ true)
  unfolding after_step
  finish-go_on n step (err e, s) v s' h = cc
  finish-go_on n step (ok answer, s) v s' h = ground arith

  run_action-go_on :
      (n : ℕ) (step : StepDef) (found : Result Action) (v : Value) (s s' : State)
      → run_action actions checks steps n step found s ≡ go_on v s'
      → (a : Action) × (found ≡ ok a)
        × (((s₁ : State) × ((a step s₁).0 ≡ ok v)) ⊎ (next step ≡ v))
        × (truthy v ≡ true)
  run_action-go_on n step (err e) v s s' h = cc
  run_action-go_on n step (ok a) v s s' h =
      let (came, true_v) = finish-go_on n step (call_action a step s) v s' h in
      elim came [
        | inl e ↦ (a, refl, inl (call-answer step a s v e), true_v)
        | inr e ↦ (a, refl, inr e, true_v)
      ]

  enter-go_on :
      (n : ℕ) (found : Option (String × StepDef)) (v : Value) (s s' : State)
      → enter_step actions checks steps n found s ≡ go_on v s'
      → (sid : String) × (step : StepDef) × (a : Action) × (found ≡ some (sid, step))
        × (get_action step.action actions ≡ ok a)
        × (((s₁ : State) × ((a step s₁).0 ≡ ok v)) ⊎ (next step ≡ v))
        × (truthy v ≡ true)
  enter-go_on n none v s s' h = cc
  enter-go_on n (some (sid, step)) v s s' h =
      let (a, e, f, t) = run_action-go_on n step (get_action step.action actions) v _ s' h in
      (sid, step, a, refl, e, f, t)

  pub run_step-WentOn :
      (n : ℕ) (current v : Value) (s s' : State)
      → run_step actions checks steps n current s ≡ go_on v s'
      → WentOn current v
  unfolding run_step
  run_step-WentOn n current v s s' h = elim (Option-cases (cancel_reason checks (n + n) s)) [
    | inr (why, e) ↦ cc (rw (e, run_step) at h)
    | inl e ↦ enter-go_on n (find_step current steps) v s s' (rw (e, run_step) at h)
  ]

-- The steps have a rank that falls along every branch: from a step to its `next`, and to any step
-- that its action answers.
pub record GoesForward (actions : Dict Action) (steps : Dict StepDef) (rank : String → ℕ)
    : Type 0 where
  pub nexts :
      (sid t : String) (step : StepDef)
      → get sid steps ≡ some step
      → next step ≡ text t
      → rank t < rank sid
  pub answers :
      (sid t : String) (step : StepDef) (a : Action) (s : State)
      → get sid steps ≡ some step
      → get_action step.action actions ≡ ok a
      → (a step s).0 ≡ ok (text t)
      → rank t < rank sid

abbrev measure : (String → ℕ) → Value → ℕ
measure rank (text t) = suc (rank t)
measure rank v = 0

pub find_step-eq-some :
    (current : Value) (steps : Dict StepDef) (sid : String) (step : StepDef)
    → find_step current steps ≡ some (sid, step)
    → (current ≡ text sid) × (get sid steps ≡ some step)
unfolding find_step
find_step-eq-some (text t) steps sid step h = ground arith
find_step-eq-some v steps sid step h = cc

module _ (actions : Dict Action) (checks : Cancellations) (steps : Dict StepDef) (rank : String → ℕ)
    (f : GoesForward actions steps rank) where
  forward_answers :
      (sid : String) (step : StepDef) (a : Action) (v : Value)
      → get sid steps ≡ some step
      → get_action step.action actions ≡ ok a
      → ((s : State) × ((a step s).0 ≡ ok v)) ⊎ (next step ≡ v)
      → measure rank v < suc (rank sid)
  forward_answers sid step a (text t) e g (inl (s, h)) =
      omega (arith, f.answers sid t step a s e g h)
  forward_answers sid step a (text t) e g (inr h) = omega (arith, f.nexts sid t step e h)
  forward_answers sid step a v e g h = omega arith

  run_step_descends :
      (n : ℕ) (current v : Value) (s s' : State)
      → run_step actions checks steps n current s ≡ go_on v s'
      → measure rank v < measure rank current
  run_step_descends n current v s s' h =
      let (sid, step, a, found, got, came, _) =
        run_step-WentOn actions checks steps n current v s s' h in
      let (e, g) = find_step-eq-some current steps sid step found in
      rw e (forward_answers sid step a v g got came)

  loop_ends :
      (fuel n : ℕ) (current : Value) (s : State)
      → measure rank current < fuel
      → (r : Result (Unit {0}) × State) × (run_loop actions checks steps fuel n current s ≡ some r)
  unfolding run_loop
  loop_ends zero n current s h = absurd (omega arith)
  loop_ends (suc fuel) n current s h =
      elim (Outcome-cases (run_step actions checks steps n current s)) [
        | inl (v, s', e) ↦
            rw (e, run_loop)
              (loop_ends fuel (suc n) v s' (omega (arith, run_step_descends n current v s s' e)))
        | inr (inl (s', e)) ↦ ((ok tt, s'), rw (e, run_loop))
        | inr (inr (er, s', e)) ↦ ((err er, s'), rw (e, run_loop))
      ]

-- In a pipeline that only goes forward the loop ends, whatever the actions and the cancellation
-- registry do, with fuel for two rounds more than the rank of the entry step.
pub run_loop-ends :
    (actions : Dict Action) (checks : Cancellations) (steps : Dict StepDef) (rank : String → ℕ)
    (entry : String) (s : State) (fuel : ℕ)
    → GoesForward actions steps rank
    → rank entry + 1 < fuel
    → (r : Result (Unit {0}) × State) × (run_loop actions checks steps fuel 0 (text entry) s
        ≡ some r)
run_loop-ends actions checks steps rank entry s fuel f h =
    loop_ends actions checks steps rank f fuel 0 (text entry) s (omega arith)
