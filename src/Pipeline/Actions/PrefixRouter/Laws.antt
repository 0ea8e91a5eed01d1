-- ===== src/Pipeline/Actions/PrefixRouter/Laws.antt =====
-- The prefix router answers with a step whenever it answers, and strips exactly the matched prefix.
use Prim.Native.String.{◌++◌ as append_text}
use local_ai_rag.Prelude.{
  String, Bool, true, false, not, ◌≡◌, refl, Option, none, some, [], ◌∷◌, arith, Bool-cases,
  Option-cases, inl, inr, All, ◌⊎◌, ap, subst,
}
use local_ai_rag.Text.{is_empty, strip, strip_opt, after_prefix, after_prefix-append}
use local_ai_rag.Dict.{Dict, get, keys, All-keys-put}
use local_ai_rag.Value.{Value, Builtins, object, field, truthy, lookup, str_or_empty, to_dict}
use local_ai_rag.Pipeline.Result.{Result, ok, err, require, require-eq-ok, >>=-eq-ok, ok-injective}
use local_ai_rag.Pipeline.Definitions.{StepDef}
use local_ai_rag.Pipeline.State.{State}
use local_ai_rag.Pipeline.Actions.PrefixRouter.{
  match_prefix, match_stripped, prefix_router, answer, validate_routes, collect_routes, route,
  routed, route_by, routes_of,
}

-- A route's prefix does not match a text: it is blank, or the text does not begin with it.
abbrev Misses : String → String × String → Type 0
Misses t (kind, prefix) = (is_empty (strip prefix) ≡ true) ⊎ (after_prefix (strip prefix) t ≡ none)

-- What `match_prefix` answers, by the routes in order: those before the one taken miss, and the text
-- is the taken prefix and what is behind it.
abbrev pub Matched : String → Dict String → Option String × String → Type 0
Matched t prefixes (none, payload) = All (Misses t) prefixes × (payload ≡ t)
Matched t [] (some kind, payload) = ⊥
Matched t ((k, prefix) ∷ prefixes) (some kind, payload) =
    ((k ≡ kind)
      × ((rest : String) × (t ≡ append_text (strip prefix) rest)
          × (payload ≡ strip rest)
          × (is_empty (strip prefix) ≡ false)))
    ⊎ (Misses t (k, prefix) × Matched t prefixes (some kind, payload))

Matched-cons :
    (t : String) (entry : String × String) (prefixes : Dict String) (r : Option String × String)
    → Misses t entry
    → Matched t prefixes r
    → Matched t (entry ∷ prefixes) r
Matched-cons t entry prefixes (none, payload) m h = ((m, h.0), h.1)
Matched-cons t (k, prefix) prefixes (some kind, payload) m h = inr (m, h)

match_stripped-Matched :
    (t : String) (prefixes : Dict String) → Matched t prefixes (match_stripped t prefixes)
unfolding match_stripped
match_stripped-Matched t [] = (tt, refl)
match_stripped-Matched t ((kind, prefix) ∷ prefixes) =
    let later = λ (m : Misses t (kind, prefix)).
      Matched-cons t (kind, prefix) prefixes (match_stripped t prefixes) m
        (match_stripped-Matched t prefixes) in
    elim (Bool-cases (is_empty (strip prefix))) [
      | inl blank ↦ rw (blank, match_stripped) (later (inl blank))
      | inr given ↦ elim (Option-cases (after_prefix (strip prefix) t)) [
        | inl miss ↦ rw (given, miss, match_stripped) (later (inr miss))
        | inr (rest, hit) ↦
            rw (given, hit, match_stripped)
              (inl (refl, (rest, after_prefix-append (strip prefix) t rest hit, refl, given)))
      ]
    ]

-- `match_prefix` takes the first route whose stripped, non-empty prefix the stripped text begins with, and
-- answers with the rest of that text, stripped; it takes none exactly when every route misses, and then
-- answers with the whole stripped text.
pub match_prefix-Matched :
    (t : String) (prefixes : Dict String) → Matched (strip t) prefixes (match_prefix t prefixes)
unfolding match_prefix
match_prefix-Matched t prefixes = match_stripped-Matched (strip t) prefixes

answer-truthy : (s : String) → is_empty s ≡ false → truthy (answer s) ≡ true
unfolding truthy
answer-truthy s h = ground arith

match_stripped-All :
    (Q : String → Type 0) (t kind payload : String) (prefixes : Dict String)
    → All Q (keys prefixes)
    → match_stripped t prefixes ≡ (some kind, payload)
    → Q kind
unfolding match_stripped
match_stripped-All Q t kind payload [] a h = cc h
match_stripped-All Q t kind payload ((k, prefix) ∷ prefixes) (q, a) h =
    elim (Bool-cases (is_empty (strip prefix))) [
      | inl blank ↦ match_stripped-All Q t kind payload prefixes a (rw (blank, match_stripped) at h)
      | inr given ↦ elim (Option-cases (after_prefix (strip prefix) t)) [
        | inl miss ↦
            match_stripped-All Q t kind payload prefixes a (rw (given, miss, match_stripped) at h)
        | inr (rest, hit) ↦
            let e : k ≡ kind = cc (rw (given, hit, match_stripped) at h) in subst Q e q
      ]
    ]

match_prefix-All :
    (Q : String → Type 0) (t kind payload : String) (prefixes : Dict String)
    → All Q (keys prefixes)
    → match_prefix t prefixes ≡ (some kind, payload)
    → Q kind
unfolding match_prefix
match_prefix-All Q t kind payload prefixes a h =
    match_stripped-All Q (strip t) kind payload prefixes a h

module _ ⦃py : Builtins⦄ (Q : String → Type 0) where
  collect_routes-All :
      (routes : Dict Value) (prefixes nexts : Dict String)
      → All (λ (k : String). Q (strip k)) (keys routes)
      → All Q (keys prefixes)
      → All Q (keys (collect_routes routes (prefixes, nexts)).0)
  unfolding collect_routes
  collect_routes-All [] prefixes nexts a p = p
  collect_routes-All ((kind, object fs) ∷ routes) prefixes nexts (q, a) p =
      elim (Bool-cases (is_empty (strip kind))) [
        | inl blank ↦ rw (blank, collect_routes) (collect_routes-All routes prefixes nexts a p)
        | inr given ↦
            rw (given, collect_routes)
              (collect_routes-All routes _ _ a (All-keys-put Q (strip kind) _ prefixes q p))
      ]
  collect_routes-All ((kind, cfg) ∷ routes) prefixes nexts (q, a) p =
      elim (Bool-cases (is_empty (strip kind))) [
        | inl blank ↦ rw (blank, collect_routes) (collect_routes-All routes prefixes nexts a p)
        | inr given ↦ rw (given, collect_routes) (collect_routes-All routes prefixes nexts a p)
      ]

not-true : (b : Bool) → not b ≡ true → b ≡ false
not-true true h = cc
not-true false h = refl

-- The next step of a kind is set.
abbrev HasNext : Dict String → String → Type 0
HasNext nexts k = is_empty (strip_opt (get k nexts)) ≡ false

validate_routes-HasNext :
    (routes : Dict Value) (prefixes nexts : Dict String) {u : Unit {0}}
    → validate_routes routes prefixes nexts ≡ ok u
    → All (λ (k : String). HasNext nexts (strip k)) (keys routes)
unfolding validate_routes
validate_routes-HasNext [] prefixes nexts h = tt
validate_routes-HasNext ((kind, cfg) ∷ routes) prefixes nexts h =
    let (_, _, h₁) =
      >>=-eq-ok
        (require (not (is_empty (strip kind)))
          "prefix_router step has an empty route kind in 'routes'.")
        _ h in
    let (_, _, h₂) =
      >>=-eq-ok
        (require (not (is_empty (strip_opt (get (strip kind) prefixes))))
          "routes[].prefix is missing or empty.")
        _ h₁ in
    let (_, n, h₃) =
      >>=-eq-ok
        (require (not (is_empty (strip_opt (get (strip kind) nexts))))
          "routes[].next is missing or empty.")
        _ h₂ in
    (not-true _ (require-eq-ok _ _ n), validate_routes-HasNext routes prefixes nexts h₃)

routed-eq-ok :
    (checked : Result (Unit {0})) (r : Value × State) (v : Value) (s s' : State)
    → routed checked r s ≡ (ok v, s')
    → (checked ≡ ok tt) × (r.0 ≡ v) × (r.1 ≡ s')
routed-eq-ok (err e) r v s s' h = cc (ap (λ (t : Result Value × State). t.0) h)
routed-eq-ok (ok u) (w, s₁) v s s' h = (
  refl,
  ok-injective (ap (λ (t : Result Value × State). t.0) h),
  ap (λ (t : Result Value × State). t.1) h,
)

module _ ⦃py : Builtins⦄ where
  route-truthy :
      (t : String) (prefixes nexts : Dict String) (on_other : Value) (s : State)
      (m : Option String × String)
      → All (HasNext nexts) (keys prefixes)
      → is_empty (str_or_empty on_other) ≡ false
      → match_prefix t prefixes ≡ m
      → truthy (route on_other nexts s m).0 ≡ true
  route-truthy t prefixes nexts on_other s (none, payload) a o h =
      answer-truthy (str_or_empty on_other) o
  route-truthy t prefixes nexts on_other s (some kind, payload) a o h =
      answer-truthy (strip_opt (get kind nexts))
        (match_prefix-All (HasNext nexts) t kind payload prefixes a h)

  route_by-truthy :
      (routes : Dict Value) (on_other v : Value) (s s' : State)
      → route_by routes on_other s ≡ (ok v, s')
      → truthy v ≡ true
  unfolding route_by
  route_by-truthy routes on_other v s s' h =
      let found = collect_routes routes ([], []) in
      let matched = match_prefix (strip_opt s.last_model_response) found.0 in
      let (c, e, _) = routed-eq-ok _ (route on_other found.1 s matched) v s s' h in
      let (_, valid, c₁) = >>=-eq-ok (validate_routes routes found.0 found.1) _ c in
      let set = not-true _ (require-eq-ok _ _ c₁) in
      let next =
        collect_routes-All (HasNext found.1) routes [] []
          (validate_routes-HasNext routes found.0 found.1 valid) tt in
      subst (λ x. truthy x ≡ true) e
        (route-truthy (strip_opt s.last_model_response) found.0 found.1 on_other s matched next set
          refl)

  -- Whenever the prefix router answers, it names a step: the engine never falls back to the step's
  -- own `next`. Whatever it cannot route raises.
  pub prefix_router-truthy :
      (step : StepDef) (v : Value) (s s' : State)
      → prefix_router step s ≡ (ok v, s')
      → truthy v ≡ true
  unfolding prefix_router
  prefix_router-truthy step v s s' h = go (lookup "routes" step.raw) h
    where
      go : (r : Value) → routes_of r (lookup "on_other" step.raw) s ≡ (ok v, s') → truthy v ≡ true
      go (object (field k c fs)) h =
          route_by-truthy (to_dict (field k c fs)) (lookup "on_other" step.raw) v s s' h
      go r h = cc (ap (λ (t : Result Value × State). t.0) h)
