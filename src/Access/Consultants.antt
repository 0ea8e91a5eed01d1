-- ===== src/Access/Consultants.antt =====
-- server/pipelines/: which consultants a user is shown (pipeline_access.py), and which snapshot set
-- a pipeline works on (pipeline_snapshot_store.py).
pub mod Laws
use local_ai_rag.Prelude.{
  String, Option, none, some, List, [], ◌∷◌, if◌then◌else◌, Bool, true, false, not, ◌&&◌, ◌==◌,
  keep_if, any_of, ◌≡◌, refl, ◌⊎◌, inl, inr, Bool-cases, Option-cases, All, is_some, eq_refl,
}
use local_ai_rag.Prelude.Any.{Any, here, there}
use local_ai_rag.Prelude.Options.{◌>>=◌}
use local_ai_rag.Text.{is_empty, strip, strip_opt}
use local_ai_rag.Dict.{Dict, get}
use local_ai_rag.Value.{
  plain_text, Value, items, nil, as_dict, as_list, lookup, str, str_or_empty, value_or, Builtins,
  truthy,
}
use local_ai_rag.Pipeline.Validator.Rules.{elem}
use local_ai_rag.Access.Policies.{none_if_empty}

module _ ⦃py : Builtins⦄ where
  -- A consultant that is an object and whose pipeline is allowed.
  unfoldable pub is_allowed : List String → Value → Bool
  unfolding str_or_empty lookup elem
  is_allowed allowed c = elim (as_dict c) [
    | none ↦ false
    | some d ↦ elem (str_or_empty (lookup "pipelineName" d)) allowed
  ]

  -- `isinstance(c, dict) and str(c.get("id") or "") == default`
  unfoldable pub has_id : String → Value → Bool
  unfolding plain_text lookup
  has_id id c = elim (as_dict c) [ none ↦ false | some d ↦ plain_text (lookup "id" d) == id ]

  unfoldable pub restrict : Option (List String) → List Value → List Value
  unfolding keep_if is_allowed
  restrict none consultants = consultants
  restrict (some allowed) consultants = keep_if (is_allowed allowed) consultants

  -- The id of the first consultant; `none` is the AttributeError on one that is no object.
  abbrev pub first_id : List Value → Option String
  unfolding plain_text lookup
  first_id [] = some ""
  first_id (c ∷ cs) = elim (as_dict c) [ none ↦ none | some d ↦ some (plain_text (lookup "id" d)) ]

  -- The default id as far as one of the consultants has it, or else the first one's.
  unfoldable pub default_id : String → List Value → Option String
  unfolding any_of has_id
  default_id wanted consultants =
      let kept =
        if not (is_empty wanted) && any_of (has_id wanted) consultants then wanted else "" in
      if is_empty kept then first_id consultants else some kept

  -- `filter_consultants`; a `consultants` entry that is no list is left out, as `none`.
  unfoldable pub filter_consultants : Value → Option (List String) → Option (List Value × String)
  unfolding restrict default_id plain_text lookup truthy
  filter_consultants templates allowed_pipelines = elim (as_dict templates) [
    | none ↦ some ([], "")
    | some d ↦ do
      all ← as_list (value_or (lookup "consultants" d) (items nil))
      let consultants = restrict allowed_pipelines all
      id ← default_id (plain_text (lookup "defaultConsultantId" d)) consultants
      some (consultants, id)
  ]

  -- `get_snapshot_set_id`, from the settings of the pipelines by name.
  unfoldable pub get_snapshot_set_id : Dict Value → Option String → Bool × Option String
  unfolding strip_opt get str_or_empty lookup
  get_snapshot_set_id settings_by_name pipeline_name =
      let name = strip_opt pipeline_name in
      let found : Bool × Option String = elim (get name settings_by_name >>= as_dict) [
        | none ↦ (false, none)
        | some settings ↦ (true, none_if_empty (str_or_empty (lookup "snapshot_set_id" settings)))
      ] in
      if is_empty name then (false, none) else found
