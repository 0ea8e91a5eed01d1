-- ===== src/Pipeline/Actions/InboxDispatcher/Laws.antt =====
-- actions/inbox_dispatcher.py: what a model's answer puts into the inbox stands in the allow lists.
use local_ai_rag.Prelude.{
  String, ◌≡◌, ◌⊎◌, refl, sym, ap, ◌∙◌, inl, inr, Bool, true, false, not, ◌||◌, none, some, List,
  [], ◌∷◌, ◌++◌, or_default, Bool-cases, Option-cases, List-cases, append_nil, All, All-append,
  arith, subst,
}
use local_ai_rag.Prelude.Any.{Any, here, there}
use local_ai_rag.Text.{is_empty, strip, strip_idem}
use local_ai_rag.Dict.{Dict, get, put, All-put}
use local_ai_rag.Value.{
  Value, null, text, lookup, str, str_or_empty, value_or, truthy, is_json_dict, Builtins,
}
use local_ai_rag.Pipeline.Result.{Result, ok, err, Error, value_error}
use local_ai_rag.Pipeline.Definitions.{StepDef}
use local_ai_rag.Pipeline.State.{State, Message, or_else}
use local_ai_rag.Pipeline.Inbox.{enqueue_message}
use local_ai_rag.Pipeline.Validator.Rules.{elem}
use local_ai_rag.Pipeline.Validator.Rules.Elem.{elem-Any}
use local_ai_rag.Pipeline.Actions.ModelJson.{JsonTools, strip_code_fences, parse_lenient}
use local_ai_rag.Pipeline.Actions.InboxDispatcher.{
  filter_payload, filtered_payload, allow_set, rename_map, candidate_payload, text_or, target_of,
  dispatch_one, dispatch_all, coerce_rules, extract_directives, inbox_dispatcher,
}

append_assoc : (xs ys zs : List Message) → (xs ++ ys) ++ zs ≡ xs ++ (ys ++ zs)
append_assoc [] ys zs = refl
append_assoc (x ∷ xs) ys zs = ap (λ rest. x ∷ rest) (append_assoc xs ys zs)

-- A key is the new name of an allowed key.
abbrev pub IsAllowed : List String → Dict String → String → Type 0
IsAllowed allowed renames key = Any (λ k. or_default (get k renames) k ≡ key) allowed

second-false : (a b : Bool) → (a || not b) ≡ false → b ≡ true
second-false a b neither = ground arith

map-eq :
    (f : String → String) (x : String) (xs : List String)
    → Any (λ y. y ≡ x) xs
    → Any (λ y. f y ≡ f x) xs
map-eq f x [] a = elim a [ ]
map-eq f x (y ∷ ys) (here e) = here (ap f e)
map-eq f x (y ∷ ys) (there a) = there (map-eq f x ys a)

filter_payload-IsAllowed :
    (allowed : List String) (renames : Dict String) (d out : Dict Value)
    → All (λ e. IsAllowed allowed renames e.0) out
    → All (λ e. IsAllowed allowed renames e.0) (filter_payload allowed renames d out)
unfolding filter_payload
filter_payload-IsAllowed allowed renames [] out a = a
filter_payload-IsAllowed allowed renames ((k, v) ∷ d) out a =
    let ks : String = strip k in
    elim (Bool-cases (is_empty ks || not (elem ks allowed))) [
      | inl left_out ↦ rw left_out (filter_payload-IsAllowed allowed renames d out a)
      | inr kept ↦
          let named = λ (x : String). or_default (get x renames) x in
          let good =
            map-eq named ks allowed
              (elem-Any ks allowed (second-false (is_empty ks) (elem ks allowed) kept)) in
          rw kept (
            filter_payload-IsAllowed allowed renames d (put (named ks) v out)
              (All-put (λ e. IsAllowed allowed renames e.0) (named ks) v out good a))
    ]

abbrev pub not_json : Error
not_json = value_error "enqueue_message: payload is not JSON-serializable"

module _ ⦃py : Builtins⦄ where
  -- A message that the rules allow: a rule stands under its target, and lets every key of its payload
  -- through.
  abbrev pub Dispatched : Dict (Dict Value) → Message → Type 0
  Dispatched rules m =
      (rule : Dict Value) × (payload : Dict Value) × (get m.target_step_id rules ≡ some rule)
      × (m.payload ≡ some payload)
      × (is_json_dict payload ≡ true)
      × All
          (λ e.
            IsAllowed (allow_set (lookup "allow_keys" rule)) (rename_map (lookup "rename" rule))
              e.0)
          payload

  strip-str_or_empty : (v : Value) → strip (str_or_empty v) ≡ str_or_empty v
  unfolding str_or_empty
  strip-str_or_empty v = elim (Bool-cases (truthy v)) [
    | inl t ↦ rw (t, str_or_empty) (strip_idem (str v))
    | inr f ↦ rw (f, str_or_empty) refl
  ]

  text_or-filled : (v : Value) → is_empty (strip (text_or v "config")) ≡ false
  unfolding text_or strip
  text_or-filled v = elim (Bool-cases (is_empty (strip (str (value_or v (text "config")))))) [
    | inl blank ↦ rw (blank, text_or) refl
    | inr filled ↦
        rw (filled, text_or) (rw (strip_idem (str (value_or v (text "config"))), filled) refl)
  ]

  -- What the rules let through of a directive cannot be written as JSON.
  abbrev pub Refused : Dict (Dict Value) → Dict Value → Type 0
  Refused rules d =
      (rule : Dict Value) × (get (target_of d) rules ≡ some rule)
      × (is_json_dict (filtered_payload rule d) ≡ false)

  -- The call of `enqueue_message` succeeds with a payload that JSON can write, and raises with another.
  enqueue-eq-ok :
      (d : Dict Value) (v : Value) (payload : Dict Value) (inbox : List Message)
      → is_empty (target_of d) ≡ false
      → is_json_dict payload ≡ true
      → (new : Message) × (enqueue_message (target_of d) (text_or v "config") (some payload) inbox
          ≡ ok (inbox ++ new ∷ []))
        × (new.target_step_id ≡ target_of d)
        × (new.payload ≡ some payload)
  unfolding enqueue_message target_of
  enqueue-eq-ok d v payload inbox has_target json =
      let same : strip (target_of d) ≡ target_of d =
        strip-str_or_empty
          (value_or (value_or (lookup "target_step_id" d) (lookup "target" d)) (lookup "id" d)) in
      let filled : is_empty (strip (target_of d)) ≡ false = rw same has_target in
      (
        record {
          target_step_id = strip (target_of d);
          topic = strip (text_or v "config");
          payload = some payload;
        },
        rw (enqueue_message, filled, text_or-filled v, json) refl,
        same,
        refl,
      )

  enqueue-eq-err :
      (d : Dict Value) (v : Value) (payload : Dict Value) (inbox : List Message)
      → is_empty (target_of d) ≡ false
      → is_json_dict payload ≡ false
      → enqueue_message (target_of d) (text_or v "config") (some payload) inbox ≡ err not_json
  unfolding enqueue_message target_of
  enqueue-eq-err d v payload inbox has_target broken =
      let same : strip (target_of d) ≡ target_of d =
        strip-str_or_empty
          (value_or (value_or (lookup "target_step_id" d) (lookup "target" d)) (lookup "id" d)) in
      let filled : is_empty (strip (target_of d)) ≡ false = rw same has_target in
      rw (enqueue_message, filled, text_or-filled v, broken) refl

  filtered_payload-IsAllowed :
      (rule d : Dict Value)
      → All
          (λ e.
            IsAllowed
              (allow_set (lookup "allow_keys" rule))
              (rename_map (lookup "rename" rule))
              e.0)
          (filtered_payload rule d)
  unfolding filtered_payload
  filtered_payload-IsAllowed rule d =
      filter_payload-IsAllowed (allow_set (lookup "allow_keys" rule))
        (rename_map (lookup "rename" rule)) (candidate_payload d) [] tt

  -- One directive puts messages that the rules allow at the end of the inbox, or is refused.
  dispatch_one-Dispatched :
      (rules : Dict (Dict Value)) (d : Dict Value) (inbox : List Message)
      → ((new : List Message) × (dispatch_one rules d inbox ≡ ok (inbox ++ new))
          × All (Dispatched rules) new)
        ⊎ ((dispatch_one rules d inbox ≡ err not_json) × Refused rules d)
  unfolding dispatch_one
  dispatch_one-Dispatched rules d inbox =
      let nothing_new : inbox ≡ inbox ++ [] = sym (append_nil inbox) in
      elim (Option-cases (get (target_of d) rules)) [
        | inl missing ↦ inl ([], rw (missing, dispatch_one) (ap ok nothing_new), tt)
        | inr (rule, found) ↦ elim (Bool-cases (is_empty (target_of d))) [
          | inl blank ↦ inl ([], rw (found, blank, dispatch_one) (ap ok nothing_new), tt)
          | inr has_target ↦ elim (List-cases (filtered_payload rule d)) [
            | inl empty ↦
                inl ([], rw (found, has_target, empty, dispatch_one) (ap ok nothing_new), tt)
            | inr (e, es, kept) ↦ sent rules d inbox rule e es found has_target kept
          ]
        ]
      ]
    where
      sent :
          (rules : Dict (Dict Value)) (d : Dict Value) (inbox : List Message) (rule : Dict Value)
          (e : String × Value) (es : Dict Value)
          → get (target_of d) rules ≡ some rule
          → is_empty (target_of d) ≡ false
          → filtered_payload rule d ≡ e ∷ es
          → ((new : List Message) × (dispatch_one rules d inbox ≡ ok (inbox ++ new))
              × All (Dispatched rules) new)
            ⊎ ((dispatch_one rules d inbox ≡ err not_json) × Refused rules d)
      sent rules d inbox rule e es found has_target kept =
          let topic : Value = value_or (lookup "topic" d) (lookup "topic" rule) in
          elim (Bool-cases (is_json_dict (e ∷ es))) [
            | inr broken ↦ inr (
              rw (found, has_target, kept, dispatch_one)
                  (enqueue-eq-err d topic (e ∷ es) inbox has_target broken),
              (rule, found, rw kept broken),
            )
            | inl json ↦
                let (new, sent, to_target, with_payload) =
                  enqueue-eq-ok d topic (e ∷ es) inbox has_target json in
                let good =
                  subst
                    (All (λ f.
                      IsAllowed (allow_set (lookup "allow_keys" rule))
                        (rename_map (lookup "rename" rule)) f.0))
                    kept (filtered_payload-IsAllowed rule d) in
                inl (
                  new ∷ [],
                  rw (found, has_target, kept, dispatch_one) sent,
                  ((rule, e ∷ es, rw to_target found, with_payload, json, good), tt),
                )
          ]

  -- How a run over directives ends: with all of them dispatched, or at one that is refused.
  abbrev pub Ended :
      Dict (Dict Value) → List (Dict Value) → Result Value × List Message → List Message → Type 0
  Ended rules ds r inbox =
      (r ≡ (ok null, inbox)) ⊎ ((r ≡ (err not_json, inbox)) × Any (Refused rules) ds)

  Ended-cons :
      (rules : Dict (Dict Value)) (d : Dict Value) (ds : List (Dict Value))
      (r : Result Value × List Message) (i j : List Message)
      → i ≡ j
      → Ended rules ds r i
      → Ended rules (d ∷ ds) r j
  Ended-cons rules d ds r i j same (inl e) = inl (e ∙ ap (λ l. (ok null, l)) same)
  Ended-cons rules d ds r i j same (inr (e, a)) =
      inr (e ∙ ap (λ l. (err not_json, l)) same, there a)

  dispatch_all-Dispatched :
      (rules : Dict (Dict Value)) (ds : List (Dict Value)) (inbox : List Message)
      → (new : List Message) × Ended rules ds (dispatch_all rules ds inbox) (inbox ++ new)
        × All (Dispatched rules) new
  unfolding dispatch_all
  dispatch_all-Dispatched rules [] inbox =
      ([], inl (ap (λ i. (ok null, i)) (sym (append_nil inbox))), tt)
  dispatch_all-Dispatched rules (d ∷ ds) inbox = elim (dispatch_one-Dispatched rules d inbox) [
    | inr (raised, refused) ↦ (
      [],
      rw (raised, dispatch_all)
          (inr (ap (λ i. (err not_json, i)) (sym (append_nil inbox)), here refused)),
      tt,
    )
    | inl (first, sent, good) ↦
        let (later, ended, all_good) = dispatch_all-Dispatched rules ds (inbox ++ first) in
        (
          first ++ later,
          rw (sent, dispatch_all)
              (Ended-cons rules d ds (dispatch_all rules ds (inbox ++ first))
                ((inbox ++ first) ++ later) (inbox ++ (first ++ later))
                (append_assoc inbox first later) ended),
          All-append (Dispatched rules) first later good all_good,
        )
  ]

  -- The directives of the model's answer, none where no JSON can be made of it.
  unfoldable pub directives : JsonTools → StepDef → State → List (Dict Value)
  unfolding strip_code_fences parse_lenient text_or lookup or_else extract_directives
  directives tools step s =
      elim (parse_lenient tools (strip_code_fences (or_else s.last_model_response ""))) [
        | none ↦ []
        | some obj ↦
            extract_directives (lookup (text_or (lookup "directives_key" step.raw) "dispatch") obj)
      ]

  -- `inbox_dispatcher` answers with no step of its own, and changes nothing but the inbox, at whose end it puts
  -- messages. Whatever the model wrote, each of them is for a step that the rules name, its payload can be
  -- written as JSON, and each key of it is allowed by that step's rule, under the name that the rule gives it. It
  -- raises only where the rules let a payload of one of the model's directives through that JSON has no form for.
  pub inbox_dispatcher-Dispatched :
      (tools : JsonTools) (step : StepDef) (s : State)
      → (let rules = coerce_rules (lookup "rules" step.raw) in
          (new : List Message) × ((inbox_dispatcher tools step s
              ≡ (ok null, record s { inbox = s.inbox ++ new }))
            ⊎ ((inbox_dispatcher tools step s ≡ (err not_json, record s { inbox = s.inbox ++ new }))
                × Any (Refused rules) (directives tools step s)))
          × All (Dispatched rules) new)
  unfolding inbox_dispatcher directives
  inbox_dispatcher-Dispatched tools step s =
      let rules : Dict (Dict Value) = coerce_rules (lookup "rules" step.raw) in
      let key : String = text_or (lookup "directives_key" step.raw) "dispatch" in
      elim (Option-cases
        (parse_lenient tools (strip_code_fences (or_else s.last_model_response "")))) [
          | inl nothing ↦ (
            [],
            rw (nothing, inbox_dispatcher, directives)
                (inl (ap (λ i. (ok null, record s { inbox = i })) (sym (append_nil s.inbox)))),
            tt,
          )
          | inr (obj, parsed) ↦
              let (new, ended, good) =
                dispatch_all-Dispatched rules (extract_directives (lookup key obj)) s.inbox in
              (
                new,
                elim ended [
                  | inl sent ↦ rw (parsed, inbox_dispatcher, directives) (rw sent (inl refl))
                  | inr (raised, refused) ↦
                      rw (parsed, inbox_dispatcher, directives) (rw raised (inr (refl, refused)))
                ],
                good,
              )
        ]
