-- ===== src/Pipeline/Actions/PrefixRouter.antt =====
-- actions/prefix_router.py: routing by the text's prefix.
pub mod Laws
use Prim.Native.String.{◌++◌ as append_text}
use local_ai_rag.Prelude.{
  String, Bool, true, false, not, Option, none, some, List, [], ◌∷◌, if◌then◌else◌,
}
use local_ai_rag.Text.{is_empty, strip, strip_opt, after_prefix}
use local_ai_rag.Dict.{Dict, get, put}
use local_ai_rag.Value.{
  Value, Builtins, null, text, object, end, field, lookup, str_or_empty, to_dict,
}
use local_ai_rag.Pipeline.Result.{Result, ok, err, value_error, ◌>>=◌, ◌>>◌, require}
use local_ai_rag.Pipeline.Definitions.{StepDef}
use local_ai_rag.Pipeline.State.{State}
use local_ai_rag.Pipeline.Inbox.{Action}

-- The kind of the first non-empty prefix that a stripped text has, and the text behind it.
unfoldable pub match_stripped : String → Dict String → Option String × String
unfolding strip after_prefix
match_stripped t [] = (none, t)
match_stripped t ((kind, prefix) ∷ prefixes) =
    let rest = match_stripped t prefixes in
    let p = strip prefix in
    if is_empty p
    then rest
    else elim (after_prefix p t) [ none ↦ rest | some payload ↦ (some kind, strip payload) ]

-- `_match_prefix`
unfoldable pub match_prefix : String → Dict String → Option String × String
unfolding strip match_stripped
match_prefix t prefixes = match_stripped (strip t) prefixes

-- `str(v or "").strip() or None`
abbrev pub answer : String → Value
answer s = if is_empty s then null else text s

-- The checks of each route.
unfoldable pub validate_routes : Dict Value → Dict String → Dict String → Result (Unit {0})
unfolding strip get strip_opt
validate_routes [] prefixes nexts = ok tt
validate_routes ((kind, cfg) ∷ routes) prefixes nexts =
    let rest = validate_routes routes prefixes nexts in
    let k = strip kind in
    do
      require (not (is_empty k)) "prefix_router step has an empty route kind in 'routes'."
      require (not (is_empty (strip_opt (get k prefixes)))) "routes[].prefix is missing or empty."
      require (not (is_empty (strip_opt (get k nexts)))) "routes[].next is missing or empty."
      rest

abbrev pub routed : Result (Unit {0}) → Value × State → State → Result Value × State
routed (err e) (v, s') s = (err e, s)
routed (ok _) (v, s') s = (ok v, s')

module _ ⦃py : Builtins⦄ where
  -- `_collect_routes`, from the items of `routes`: the prefixes and the next steps by kind.
  unfoldable pub collect_routes : Dict Value → Dict String × Dict String → Dict String × Dict String
  unfolding strip put str_or_empty lookup
  collect_routes [] found = found
  collect_routes ((kind, cfg) ∷ routes) (prefixes, nexts) =
      let k = strip kind in
      collect_routes routes (
        if is_empty k then (prefixes, nexts) else elim cfg [
          | object fs ↦ (
            put k (str_or_empty (lookup "prefix" (to_dict fs))) prefixes,
            put k (str_or_empty (lookup "next" (to_dict fs))) nexts,
          )
          | _ ↦ (prefixes, nexts)
        ])

  abbrev pub route : Value → Dict String → State → Option String × String → Value × State
  route on_other nexts s (some kind, payload) = (
    answer (strip_opt (get kind nexts)),
    record s { last_prefix = some kind; last_model_response = some payload },
  )
  route on_other nexts s (none, t) = (
    answer (str_or_empty on_other),
    record s { last_prefix = some ""; last_model_response = some t },
  )

  -- The checks of `_validate_step_contract` behind the test on `routes`, and the routing.
  unfoldable pub route_by : Dict Value → Value → State → Result Value × State
  unfolding collect_routes validate_routes match_prefix strip_opt str_or_empty get
  route_by routes on_other s =
      let (prefixes, nexts) = collect_routes routes ([], []) in
      let checked = (do
        validate_routes routes prefixes nexts
        require (not (is_empty (str_or_empty on_other)))
            "prefix_router step must define 'on_other'.") in
      routed checked
        (route on_other nexts s (match_prefix (strip_opt s.last_model_response) prefixes)) s

  abbrev pub routes_of : Value → Value → State → Result Value × State
  routes_of (object (field k v fs)) on_other s = route_by (to_dict (field k v fs)) on_other s
  routes_of v on_other s =
      (err (value_error "prefix_router step must define non-empty 'routes'."), s)

  unfoldable pub prefix_router : Action
  unfolding route_by lookup
  prefix_router step s = routes_of (lookup "routes" step.raw) (lookup "on_other" step.raw) s
