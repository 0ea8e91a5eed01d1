-- ===== src/Pipeline/Budget/Laws.antt =====
-- What an enforced budget promises, and what enforcing leaves alone.
use local_ai_rag.Prelude.{
  true, Option, none, some, List, [], ◌∷◌, ◌≡◌, refl, arith, All, Bool-cases, inl, inr, subst, ◌≢◌,
  ◌⊎◌, ◌∙◌, String, false, ◌==◌,
}
use local_ai_rag.Prelude.Int.{ℤ, pos, ◌+ℤ◌, ◌≤ℤ◌, ltb_ℤ, int_laws, le→leb_ℤ}
use local_ai_rag.Dict.{Dict, get, put, get-put}
use local_ai_rag.Value.{Value, num, lookup, Builtins}
use local_ai_rag.Pipeline.Result.{ok, require, require-eq-ok, >>=-eq-ok, ok-injective}
use local_ai_rag.Pipeline.Definitions.{StepDef}
use local_ai_rag.Pipeline.Budget.{
  Policy, fail_fast, auto_clamp, BudgetContractClamp, Enforced, Limits, is_call_model, fixed_of,
  step_requested_out_tokens,
}
use local_ai_rag.Pipeline.Budget.Enforce.{
  left_beside, max_context_allowed, clamp_context, clamp_step, min_option, clamp_steps,
  enforce_limits, is_fail_fast,
}

module _ ⦃py : Builtins⦄ where
  -- The step's prompt, the history, a context of `context` tokens, the output that the step asks for
  -- and the safety margin fit together into the context window. Steps of other kinds have no budget.
  abbrev pub Fits : Limits → ℤ → StepDef → Type 0
  Fits l context step =
      is_call_model step ≡ true
      → (out : ℤ) × (step_requested_out_tokens l.default_out step ≡ ok out)
        × (fixed_of l step +ℤ l.max_history_tokens +ℤ context +ℤ out +ℤ l.safety_margin ≤ℤ l.n_ctx)

  fits_of_left :
      (l : Limits) (step : StepDef) (context out : ℤ)
      → context ≤ℤ left_beside l step out
      → fixed_of l step +ℤ l.max_history_tokens +ℤ context +ℤ out +ℤ l.safety_margin ≤ℤ l.n_ctx
  fits_of_left l step context out h = omega int_laws

  left_swap :
      (l : Limits) (step : StepDef) (context out : ℤ)
      → context ≤ℤ left_beside l step out
      → out ≤ℤ left_beside l step context
  left_swap l step context out h = omega int_laws

  -- A context within the allowance fits beside every step.
  abbrev AtMost : ℤ → Option ℤ → Type 0
  AtMost n none = Unit
  AtMost n (some m) = n ≤ℤ m

  AtMost-min :
      (context m : ℤ) (best : Option ℤ)
      → context ≤ℤ min_option best m
      → AtMost context best × (context ≤ℤ m)
  AtMost-min context m none h = (tt, h)
  AtMost-min context m (some b) h = ground arith

  allowed-Fits :
      (l : Limits) (best : Option ℤ) (steps : List StepDef) (allowed context : ℤ)
      → max_context_allowed l best steps ≡ ok (some allowed)
      → context ≤ℤ allowed
      → AtMost context best × All (Fits l context) steps
  unfolding max_context_allowed
  allowed-Fits l none [] allowed context h c = (tt, tt)
  allowed-Fits l (some m) [] allowed context h c = (let e : m ≡ allowed = cc h in rw e c, tt)
  allowed-Fits l best (step ∷ steps) allowed context h c = elim (Bool-cases (is_call_model step)) [
    | inr no_call ↦
        let (a, fits) =
          allowed-Fits l best steps allowed context (rw (no_call, max_context_allowed) at h) c in
        (a, ((λ call. cc (no_call, call)), fits))
    | inl call ↦
        let h' = rw (call, max_context_allowed) at h in
        let (out, o, rest) = >>=-eq-ok (step_requested_out_tokens l.default_out step) _ h' in
        let (a, fits) =
          allowed-Fits l (some (min_option best (left_beside l step out))) steps allowed context
            rest c in
        let (b, within) = AtMost-min context (left_beside l step out) best a in
        (b, ((λ _. (out, o, fits_of_left l step context out within)), fits))
  ]

  -- The second check passes a step that fits, unchanged.
  clamp_step-Fits :
      (pol : Policy) (l : Limits) (context : ℤ) (step : StepDef)
      → is_call_model step ≡ true
      → Fits l context step
      → clamp_step pol l context step ≡ ok (step, [])
  unfolding clamp_step
  clamp_step-Fits pol l context step call fits =
      let (out, o, within) = fits call in
      let enough : out ≤ℤ left_beside l step context = omega int_laws in
      rw (o, le→leb_ℤ out (left_beside l step context) enough) refl

  clamp_steps-Fits :
      (pol : Policy) (l : Limits) (context : ℤ) (steps : List StepDef)
      → All (Fits l context) steps
      → clamp_steps pol l context steps ≡ ok (steps, [])
  unfolding clamp_steps
  clamp_steps-Fits pol l context [] f = refl
  clamp_steps-Fits pol l context (step ∷ steps) (f, fs) = elim (Bool-cases (is_call_model step)) [
    | inr no_call ↦ rw (no_call, clamp_steps-Fits pol l context steps fs) refl
    | inl call ↦
        rw
          (call, clamp_step-Fits pol l context step call f, clamp_steps-Fits pol l context steps fs)
          refl
  ]

  -- The outcome of the first check.
  record Clamped (pol : Policy) (asked allowed context : ℤ) (clamps : List BudgetContractClamp)
      : Type 0 where
    within : context ≤ℤ allowed
    lowered : context ≤ℤ asked
    kept : is_fail_fast pol ≡ true → (context ≡ asked) × (clamps ≡ [])

  clamp_context-Clamped :
      (pol : Policy) (asked allowed context : ℤ) (clamps : List BudgetContractClamp)
      → clamp_context pol asked allowed ≡ ok (context, clamps)
      → ltb_ℤ (pos 0) context ≡ true
      → Clamped pol asked allowed context clamps
  unfolding clamp_context
  clamp_context-Clamped fail_fast asked allowed context clamps h p = ground arith
  clamp_context-Clamped auto_clamp asked allowed context clamps h p = ground arith

module _ ⦃py : Builtins⦄ where
  -- What the two checks leave, for the limits that they are given.
  pub record Promise (l : Limits) (settings : Dict Value) (steps : List StepDef) (e : Enforced)
      : Type 0 where
    pub same : e.steps ≡ steps
    pub fits : All (Fits l e.max_context_tokens_after) e.steps
    pub lowered : e.max_context_tokens_after ≤ℤ e.max_context_tokens_before
    pub history : e.max_history_tokens ≡ l.max_history_tokens
    -- the settings have the context, and are else as they were
    pub written :
        ((e.settings ≡ settings) × (e.max_context_tokens_after ≡ e.max_context_tokens_before))
        ⊎ (lookup "max_context_tokens" e.settings ≡ num e.max_context_tokens_after)
    pub others :
        (k : String) → ("max_context_tokens" == k) ≡ false → get k e.settings ≡ get k settings
    pub strict :
        is_fail_fast e.policy ≡ true
        → (e.max_context_tokens_after ≡ e.max_context_tokens_before) × (e.clamps ≡ [])

  put_context :
      (context : ℤ) (settings : Dict Value)
      → lookup "max_context_tokens" (put "max_context_tokens" (num context) settings) ≡ num context
  unfolding lookup
  put_context context settings =
      rw (get-put "max_context_tokens" "max_context_tokens" (num context) settings, lookup) refl

  pub enforce_limits-Promise :
      (pol : Policy) (l : Limits) (asked : ℤ) (settings : Dict Value) (steps : List StepDef)
      (allowed : ℤ) (e : Enforced)
      → max_context_allowed l none steps ≡ ok (some allowed)
      → enforce_limits pol l asked settings steps allowed ≡ ok e
      → Promise l settings steps e
  unfolding enforce_limits
  enforce_limits-Promise pol l asked settings steps allowed e a h =
      let ((context, first), c, h₁) = >>=-eq-ok (clamp_context pol asked allowed) _ h in
      let (_, p, h₂) =
        >>=-eq-ok
          (require (ltb_ℤ (pos 0) context)
            "budget_contract: resolved max_context_tokens_after <= 0.")
          _ h₁ in
      let clamped = clamp_context-Clamped pol asked allowed context first c (require-eq-ok _ _ p) in
      let all_fit = (allowed-Fits l none steps allowed context a clamped.within).1 in
      let h₃ = rw (clamp_steps-Fits pol l context steps all_fit) at h₂ in
      subst (Promise l settings steps) (ok-injective h₃) (record {
        same = refl;
        fits = all_fit;
        lowered = clamped.lowered;
        history = refl;
        written = inr (put_context context settings);
        others = λ k ne. get-put "max_context_tokens" k (num context) settings ∙ rw ne refl;
        strict = λ f. ((clamped.kept f).0, rw ((clamped.kept f).1) refl);
      })

  allowed-ne-none :
      (l : Limits) (steps : List StepDef) (m : ℤ) → max_context_allowed l (some m) steps ≢ ok none
  unfolding max_context_allowed
  allowed-ne-none l [] m h = cc
  allowed-ne-none l (step ∷ steps) m h = elim (Bool-cases (is_call_model step)) [
    | inr no_call ↦ allowed-ne-none l steps m (rw (no_call, max_context_allowed) at h)
    | inl call ↦
        let (out, o, rest) =
          >>=-eq-ok (step_requested_out_tokens l.default_out step) _
            (rw (call, max_context_allowed) at h) in
        allowed-ne-none l steps (min_option (some m) (left_beside l step out)) rest
  ]

  -- With no allowance there is no `call_model` step.
  pub no_calls-Fits :
      (l : Limits) (steps : List StepDef) (context : ℤ)
      → max_context_allowed l none steps ≡ ok none
      → All (Fits l context) steps
  unfolding max_context_allowed
  no_calls-Fits l [] context h = tt
  no_calls-Fits l (step ∷ steps) context h = elim (Bool-cases (is_call_model step)) [
    | inr no_call ↦ (
      (λ call. cc (no_call, call)),
      no_calls-Fits l steps context (rw (no_call, max_context_allowed) at h),
    )
    | inl call ↦
        let (out, o, rest) =
          >>=-eq-ok (step_requested_out_tokens l.default_out step) _
            (rw (call, max_context_allowed) at h) in
        absurd (allowed-ne-none l steps (left_beside l step out) rest)
  ]
