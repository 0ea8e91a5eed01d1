-- ===== src/Pipeline/Actions/InboxDispatcher.antt =====
-- actions/inbox_dispatcher.py: a model's answer may leave messages for later steps, as far as the rules of
-- the step allow it.
pub mod Laws
use local_ai_rag.Prelude.{
  String, Bool, true, false, not, ◌&&◌, ◌||◌, Option, none, some, List, [], ◌∷◌, if◌then◌else◌,
  or_default,
}
use local_ai_rag.Text.{is_empty, strip}
use local_ai_rag.Dict.{Dict, get, put}
use local_ai_rag.Value.{
  Value, Values, null, text, items, object, to_list, to_dict, as_dict, lookup, str, str_or_empty,
  value_or, truthy, Builtins,
}
use local_ai_rag.Pipeline.Result.{Result, ok, err}
use local_ai_rag.Pipeline.Definitions.{StepDef}
use local_ai_rag.Pipeline.State.{State, Message, or_else}
use local_ai_rag.Pipeline.Inbox.{Action, enqueue_message}
use local_ai_rag.Pipeline.Validator.Rules.{elem}
use local_ai_rag.Pipeline.Actions.ModelJson.{JsonTools, strip_code_fences, parse_lenient}

-- The rules by stripped target; an entry that is no mapping is passed over.
unfoldable pub coerce_entries : Dict Value → Dict (Dict Value) → Dict (Dict Value)
unfolding strip put
coerce_entries [] out = out
coerce_entries ((k, v) ∷ raw) out =
    let target = strip k in
    let next : Dict (Dict Value) = elim (as_dict v) [
      | none ↦ out
      | some rule ↦ if is_empty target then out else put target rule out
    ] in
    coerce_entries raw next

-- `_coerce_rules`
unfoldable pub coerce_rules : Value → Dict (Dict Value)
unfolding coerce_entries
coerce_rules v = elim (as_dict v) [ none ↦ [] | some raw ↦ coerce_entries raw [] ]

abbrev mappings : List Value → List (Dict Value)
mappings [] = []
mappings (v ∷ vs) = elim (as_dict v) [ none ↦ mappings vs | some d ↦ d ∷ mappings vs ]

-- `_extract_directives`
unfoldable pub extract_directives : Value → List (Dict Value)
extract_directives (object fs) = to_dict fs ∷ []
extract_directives (items vs) = mappings (to_list vs)
extract_directives v = []

abbrev pub routing_keys : List String
routing_keys = "target_step_id" ∷ "target" ∷ "id" ∷ "topic" ∷ "payload" ∷ []

unfoldable pub without_routing : Dict Value → Dict Value
unfolding elem
without_routing [] = []
without_routing ((k, v) ∷ d) =
    let rest = without_routing d in if elem k routing_keys then rest else (k, v) ∷ rest

-- The payload of a directive, or the keys that it has beside those for its routing.
unfoldable pub candidate_payload : Dict Value → Dict Value
unfolding lookup without_routing
candidate_payload d = elim (as_dict (lookup "payload" d)) [ some p ↦ p | none ↦ without_routing d ]

-- The allowed entries under their new names.
unfoldable pub filter_payload : List String → Dict String → Dict Value → Dict Value → Dict Value
unfolding strip elem get put
filter_payload allowed renames [] out = out
filter_payload allowed renames ((k, v) ∷ d) out =
    let ks = strip k in
    let next =
      if is_empty ks || not (elem ks allowed)
      then out
      else put (or_default (get ks renames) ks) v out in
    filter_payload allowed renames d next

module _ ⦃py : Builtins⦄ where
  -- `str(v or default).strip() or default`
  unfoldable pub text_or : Value → String → String
  unfolding truthy str strip
  text_or v default =
      let s = strip (str (value_or v (text default))) in if is_empty s then default else s

  -- `{str(k).strip() for k in allow_keys if str(k).strip()}`
  unfoldable pub allow_set : Value → List String
  unfolding str strip
  allow_set (items vs) = go (to_list vs)
    where
      go : List Value → List String
      go [] = []
      go (w ∷ ws) =
          let rest = go ws in if is_empty (strip (str w)) then rest else strip (str w) ∷ rest
  allow_set v = []

  unfoldable pub collect_renames : Dict Value → Dict String → Dict String
  unfolding strip str_or_empty put
  collect_renames [] out = out
  collect_renames ((k, v) ∷ d) out =
      let from_key = strip k in
      let to_key = str_or_empty v in
      let next = if is_empty from_key || is_empty to_key then out else put from_key to_key out in
      collect_renames d next

  unfoldable pub rename_map : Value → Dict String
  unfolding collect_renames
  rename_map v = elim (as_dict v) [ none ↦ [] | some d ↦ collect_renames d [] ]

  -- What a rule lets through of a directive.
  unfoldable pub filtered_payload : Dict Value → Dict Value → Dict Value
  unfolding filter_payload allow_set rename_map candidate_payload lookup
  filtered_payload rule d =
      filter_payload (allow_set (lookup "allow_keys" rule)) (rename_map (lookup "rename" rule))
        (candidate_payload d) []

  unfoldable pub target_of : Dict Value → String
  unfolding lookup str_or_empty truthy
  target_of d =
      str_or_empty
        (value_or (value_or (lookup "target_step_id" d) (lookup "target" d)) (lookup "id" d))

  -- One directive: the inbox with its message, or as it was.
  unfoldable pub dispatch_one :
      Dict (Dict Value) → Dict Value → List Message → Result (List Message)
  unfolding target_of get filtered_payload text_or enqueue_message lookup truthy
  dispatch_one rules d inbox =
      let target = target_of d in
      elim (get target rules) [
        | none ↦ ok inbox
        | some rule ↦
            let topic = text_or (value_or (lookup "topic" d) (lookup "topic" rule)) "config" in
            let sent : Result (List Message) = elim (filtered_payload rule d) [
              | [] ↦ ok inbox
              | e ∷ es ↦ enqueue_message target topic (some (e ∷ es)) inbox
            ] in
            if is_empty target then ok inbox else sent
      ]

  -- All directives, in order; an exception keeps the messages that are there.
  unfoldable pub dispatch_all :
      Dict (Dict Value) → List (Dict Value) → List Message → Result Value × List Message
  unfolding dispatch_one
  dispatch_all rules [] inbox = (ok null, inbox)
  dispatch_all rules (d ∷ ds) inbox = elim (dispatch_one rules d inbox) [
    | err e ↦ (err e, inbox)
    | ok more ↦ dispatch_all rules ds more
  ]

  -- `do_execute`
  unfoldable pub inbox_dispatcher : JsonTools → Action
  unfolding dispatch_all coerce_rules extract_directives strip_code_fences parse_lenient text_or
      lookup or_else
  inbox_dispatcher tools step s =
      let directives_key = text_or (lookup "directives_key" step.raw) "dispatch" in
      let rules = coerce_rules (lookup "rules" step.raw) in
      elim (parse_lenient tools (strip_code_fences (or_else s.last_model_response ""))) [
        | none ↦ (ok null, s)
        | some obj ↦
            let (answer, inbox) =
              dispatch_all rules (extract_directives (lookup directives_key obj)) s.inbox in
            (answer, record s { inbox = inbox })
      ]
