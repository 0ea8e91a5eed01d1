-- ===== src/Pipeline/Actions/JsonDecisionRouter/Laws.antt =====
-- actions/json_decision_router.py: a model's answer leads to a route of the step or to its fallback, and a
-- later step sees the answer without its routing keys.
use local_ai_rag.Prelude.{
  String, ◌≡◌, refl, sym, ap, subst, some-injective, ◌⊎◌, inl, inr, Bool, true, false, not, ◌&&◌,
  none, some, [], ◌∷◌, if◌then◌else◌, Bool-cases, Option-cases, arith, ◌==◌,
}
use local_ai_rag.Prelude.Any.{Any, here, there, map-Any}
use local_ai_rag.Text.{is_empty, strip_opt}
use local_ai_rag.Dict.{Dict, get, get-remove}
use local_ai_rag.Value.{Value, text, lookup, str_or_empty, Builtins}
use local_ai_rag.Pipeline.Result.{ok, require, require-eq-ok, >>=-eq-ok, ok-injective, Result-cases}
use local_ai_rag.Pipeline.Definitions.{StepDef}
use local_ai_rag.Pipeline.State.{State}
use local_ai_rag.Pipeline.Actions.ModelJson.{JsonTools, parse_decision}
use local_ai_rag.Pipeline.Actions.JsonDecisionRouter.{
  cleaned, decision_of, routes_of, read_routes, decide, json_decision_router,
}

-- The three keys are gone, and every other key is as it was.
pub get-cleaned :
    (k : String) (obj : Dict Value)
    → get k (cleaned obj) ≡ (
        if "mode" == k
        then none
        else if "route" == k
        then none
        else if "decision" == k
        then none
        else get k obj)
unfolding cleaned
get-cleaned k obj = rw (get-remove "mode" k, get-remove "route" k, get-remove "decision" k) refl

-- What a lookup finds is the value of an entry.
get-Any : (k : String) (v : Value) (d : Dict Value) → get k d ≡ some v → Any (λ e. e.1 ≡ v) d
unfolding get
get-Any k v [] h = cc h
get-Any k v ((j, w) ∷ d) h = elim (Bool-cases (j == k)) [
  | inl same ↦ here (some-injective (rw (same, get) at h))
  | inr other ↦ there (get-Any k v d (rw (other, get) at h))
]

both-not : (a b : Bool) → (not a && not b) ≡ true → b ≡ false
both-not a b h = ground arith

not-true : (b : Bool) → not b ≡ true → b ≡ false
not-true b h = ground arith

module _ ⦃py : Builtins⦄ where
  -- A step that the routes or the fallback name.
  abbrev pub Declared : Dict Value → String → String → Type 0
  Declared routes on_other target =
      (is_empty target ≡ false)
      × ((target ≡ on_other) ⊎ Any (λ e. str_or_empty e.1 ≡ target) routes)

  lookup-Any :
      (k : String) (d : Dict Value)
      → is_empty (str_or_empty (lookup k d)) ≡ false
      → Any (λ e. str_or_empty e.1 ≡ str_or_empty (lookup k d)) d
  unfolding lookup str_or_empty
  lookup-Any k d filled = elim (Option-cases (get k d)) [
    | inl missing ↦ cc (rw (missing, lookup, str_or_empty) at filled)
    | inr (v, found) ↦
        rw (found, lookup) (map-Any (λ e same. ap str_or_empty same) d (get-Any k v d found))
  ]

  decide-Declared :
      (routes : Dict Value) (on_other decision : String)
      → is_empty on_other ≡ false
      → Declared routes on_other (decide routes on_other decision)
  unfolding decide
  decide-Declared routes on_other decision filled =
      let target : String = str_or_empty (lookup decision routes) in
      elim (Bool-cases (not (is_empty decision) && not (is_empty target))) [
        | inr other ↦ rw (other, decide) (filled, inl refl)
        | inl hit ↦
            let named = both-not (is_empty decision) (is_empty target) hit in
            rw (hit, decide) (named, inr (lookup-Any decision routes named))
      ]

  read_routes-filled :
      (step : StepDef) (routes : Dict Value) (on_other : String)
      → read_routes step ≡ ok (routes, on_other)
      → is_empty on_other ≡ false
  unfolding read_routes
  read_routes-filled step routes on_other h =
      let (found, is_dict, rest) = >>=-eq-ok (routes_of (lookup "routes" step.raw)) _ h in
      let (u, checked, last) =
        >>=-eq-ok
          (require (not (is_empty (str_or_empty (lookup "on_other" step.raw))))
            "json_decision_router: on_other is required")
          _ rest in
      let same : str_or_empty (lookup "on_other" step.raw) ≡ on_other =
        ap (λ (p : Dict Value × String). p.1) (ok-injective last) in
      let given =
        not-true (is_empty (str_or_empty (lookup "on_other" step.raw)))
          (require-eq-ok _ _ checked) in
      subst (λ t. is_empty t ≡ false) same given

  -- Where `json_decision_router` answers at all, it answers with a step that its own step declares: the
  -- fallback, or the value of one of the routes, and never a blank one. What the model wrote chooses among
  -- these.
  pub json_decision_router-Declared :
      (tools : JsonTools) (step : StepDef) (s : State) (answer : Value)
      → (json_decision_router tools step s).0 ≡ ok answer
      → (routes : Dict Value) × (on_other : String) × (target : String) × (read_routes step
          ≡ ok (routes, on_other))
        × (answer ≡ text target)
        × Declared routes on_other target
  unfolding json_decision_router
  json_decision_router-Declared tools step s answer h = elim (Result-cases (read_routes step)) [
    | inl (e, fails) ↦ cc (rw (fails, json_decision_router) at h)
    | inr ((routes, on_other), read) ↦
        let filled = read_routes-filled step routes on_other read in
        elim (Option-cases (parse_decision tools (strip_opt s.last_model_response))) [
          | inl unread ↦
              let e : text on_other ≡ answer =
                ok-injective (rw (read, unread, json_decision_router) at h) in
              (routes, on_other, on_other, read, sym e, (filled, inl refl))
          | inr (obj, parsed) ↦
              let target : String = decide routes on_other (decision_of obj) in
              let e : text target ≡ answer =
                ok-injective (rw (read, parsed, json_decision_router) at h) in
              (
                routes,
                on_other,
                target,
                read,
                sym e,
                decide-Declared routes on_other (decision_of obj) filled,
              )
        ]
  ]
