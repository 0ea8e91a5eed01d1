-- ===== src/Pipeline/Validator/Laws.antt =====
-- What the engine may rely on once `validate` has accepted a pipeline.
use local_ai_rag.Prelude.{
  String, true, not, some, List, [], ◌∷◌, ◌≡◌, arith, ◌==◌, All, Bool-cases, inl, inr, subst,
}
use local_ai_rag.Text.{is_empty, strip}
use local_ai_rag.Dict.{Dict, get, put, contains, get-put}
use local_ai_rag.Value.{Value, null, text, Builtins, lookup, stripped_text}
use local_ai_rag.Pipeline.Result.{ok, require, require-eq-ok, >>=-eq-ok}
use local_ai_rag.Pipeline.Definitions.{StepDef, PipelineDef, next, steps_by_id, add_steps}
use local_ai_rag.Pipeline.Validator.Rules.{
  validate_next, validate_step_common, has_text, elem, known_actions,
}
use local_ai_rag.Pipeline.Validator.{
  validate, validate_steps, validate_action, index_steps, as_text, has_steps, allowed_compat_modes,
}

-- The map that the validator builds is the one that the engine looks steps up in.
index_steps-eq-add_steps :
    (d d' : Dict StepDef) (ss : List StepDef) → index_steps d ss ≡ ok d' → add_steps d ss ≡ d'
unfolding index_steps add_steps
index_steps-eq-add_steps d d' [] h = cc
index_steps-eq-add_steps d d' (s ∷ ss) h =
    let (_, _, h₁) =
      >>=-eq-ok (require (not (is_empty (strip s.id))) "each step must have a non-empty string id")
        _ h in
    let (_, _, h₂) = >>=-eq-ok (require (not (contains s.id d)) "duplicate step id") _ h₁ in
    index_steps-eq-add_steps (put s.id s d) d' ss h₂

-- A step's `next`, where it is present, is a text that names a step once it is stripped.
abbrev pub NextResolves : Dict StepDef → Value → Type 0
NextResolves steps null = Unit
NextResolves steps (text t) = contains (strip t) steps ≡ true
NextResolves steps v = ⊥

validate_next-NextResolves :
    (v : Value) (steps : Dict StepDef) {u : Unit {0}}
    → validate_next v steps ≡ ok u
    → NextResolves steps v
unfolding validate_next stripped_text
validate_next-NextResolves null steps h = tt
validate_next-NextResolves (text t) steps h = ground arith
validate_next-NextResolves v steps h = cc h

common-NextResolves :
    (s : StepDef) (steps : Dict StepDef) {u : Unit {0}}
    → validate_step_common s steps ≡ ok u
    → NextResolves steps (next s)
unfolding validate_step_common
common-NextResolves s steps h =
    let (_, _, h₁) =
      >>=-eq-ok (require (not (is_empty (strip s.action))) "action is required") _ h in
    let (_, _, h₂) = >>=-eq-ok (require (elem s.action known_actions) "Unknown action") _ h₁ in
    let (_, n, _) = >>=-eq-ok (validate_next (next s) steps) _ h₂ in
    validate_next-NextResolves (next s) steps n

validate_steps-All :
    (steps : Dict StepDef) (ss : List StepDef) (w : List String)
    → validate_steps steps ss ≡ ok w
    → All (λ s. NextResolves steps (next s)) ss
unfolding validate_steps
validate_steps-All steps [] w h = tt
validate_steps-All steps (s ∷ ss) w h =
    let (_, c, h₁) = >>=-eq-ok (validate_step_common s steps) _ h in
    let (_, _, h₂) = >>=-eq-ok (validate_action s steps) _ h₁ in
    let (more, m, _) = >>=-eq-ok (validate_steps steps ss) _ h₂ in
    (common-NextResolves s steps c, validate_steps-All steps ss more m)

-- What holds of every step of a list holds of every step that the map finds.
add_steps-All :
    {P : StepDef → Type 0} (d : Dict StepDef) (ss : List StepDef)
    → All P ss
    → ((sid : String) (step : StepDef) → get sid d ≡ some step → P step)
    → (sid : String) (step : StepDef) → get sid (add_steps d ss) ≡ some step
    → P step
unfolding add_steps
add_steps-All d [] a h sid step e = h sid step e
add_steps-All {P} d (s ∷ ss) (p, a) h sid step e =
    add_steps-All (put s.id s d) ss a extended sid step e
  where
    extended : (j : String) (t : StepDef) → get j (put s.id s d) ≡ some t → P t
    extended j t f = elim (Bool-cases (s.id == j)) [
      | inl same ↦ let e' : s ≡ t = ground (arith, get-put s.id j s d) in subst P e' p
      | inr other ↦ h j t (rw (get-put s.id j s d, other) at f)
    ]

-- A pipeline that `validate` accepts, as the engine sees it: its entry step is there, and each
-- `next` names a step once it is stripped.
pub record IsSound (pipeline : PipelineDef) : Type 0 where
  pub entry :
      contains (as_text (lookup "entry_step_id" pipeline.settings)) (steps_by_id pipeline.steps)
      ≡ true
  pub nexts :
      (sid : String) (step : StepDef)
      → get sid (steps_by_id pipeline.steps) ≡ some step
      → NextResolves (steps_by_id pipeline.steps) (next step)

module _ ⦃py : Builtins⦄ where
  -- When `validate` accepts a pipeline, its entry step is there, and every step that the engine can find has
  -- either no `next` or a text that names a step once it is stripped.
  pub validate-IsSound :
      (pipeline : PipelineDef) (warnings : List String)
      → validate pipeline ≡ ok warnings
      → IsSound pipeline
  unfolding validate steps_by_id
  validate-IsSound p w h =
      let (_, _, h₁) =
        >>=-eq-ok
          (require (has_text (lookup "behavior_version" p.settings)) "behavior_version is required")
          _ h in
      let (_, _, h₂) =
        >>=-eq-ok (require (has_text (lookup "compat_mode" p.settings)) "compat_mode is required") _
          h₁ in
      let (_, _, h₃) =
        >>=-eq-ok
          (require
            (elem (py.lower (stripped_text (lookup "compat_mode" p.settings))) allowed_compat_modes)
            "compat_mode must be one of the allowed modes")
          _ h₂ in
      let (_, _, h₄) =
        >>=-eq-ok
          (require (has_text (lookup "entry_step_id" p.settings)) "entry_step_id is required") _
          h₃ in
      let (_, _, h₅) =
        >>=-eq-ok (require (has_steps p.steps) "pipeline.steps must be a non-empty list") _ h₄ in
      let (by_id, i, h₆) = >>=-eq-ok (index_steps [] p.steps) _ h₅ in
      let (_, known, h₇) =
        >>=-eq-ok
          (require (contains (as_text (lookup "entry_step_id" p.settings)) by_id)
            "entry_step_id references unknown step")
          _ h₆ in
      let (ws, v, _) = >>=-eq-ok (validate_steps by_id p.steps) _ h₇ in
      let e = index_steps-eq-add_steps [] by_id p.steps i in
      record {
        entry = rw e (require-eq-ok _ _ known);
        nexts = λ sid step g. rw e (
            add_steps-All {P = λ s. NextResolves by_id (next s)} [] p.steps
              (validate_steps-All by_id p.steps ws v) (λ j t f. absurd (cc f)) sid step g);
      }
