-- ===== src/Pipeline/Loader.antt =====
-- pipeline/loader.py: how a pipeline's document is merged over the one that it extends. A document's own
-- mappings are fields, and what has been merged is a dictionary.
pub mod Files
pub mod Laws
pub mod Chain
use local_ai_rag.Prelude.{
  String, Bool, true, false, not, ◌&&◌, ◌||◌, Option, none, some, List, [], ◌∷◌, ◌++◌, map,
  if◌then◌else◌,
}
use local_ai_rag.Dict.{Dict, get, put, contains, keys}
use local_ai_rag.Value.{
  Value, Values, Fields, null, flag, num, text, items, object, other, end, field, to_list, to_dict,
  of_list, of_dict, as_dict, as_list, lookup, str, truthy, Builtins,
}
use local_ai_rag.Pipeline.Validator.Rules.{elem}

-- `_deep_merge`, and its loop over the child's fields.
unfoldable mutual
  unfolding get put

  pub deep_merge : Value → Value → Value
  deep_merge parent (object child) = elim (as_dict parent) [
    | none ↦ object child
    | some d ↦ object (of_dict (merge_fields d child))
  ]
  deep_merge parent null = null
  deep_merge parent (flag b) = flag b
  deep_merge parent (num n) = num n
  deep_merge parent (text s) = text s
  deep_merge parent (items vs) = items vs
  deep_merge parent (other b s) = other b s

  pub merge_fields : Dict Value → Fields → Dict Value
  merge_fields out end = out
  merge_fields out (field k v child) =
      merge_fields (put k (elim (get k out) [ none ↦ v | some w ↦ deep_merge w v ]) out) child

-- The elements that are mappings.
abbrev pub mappings_of : List Value → List Fields
mappings_of [] = []
mappings_of (object fs ∷ vs) = fs ∷ mappings_of vs
mappings_of (v ∷ vs) = mappings_of vs

module _ ⦃py : Builtins⦄ where
  -- `str(s["id"])` where the step has one
  unfoldable pub id_of : Dict Value → Option String
  unfolding lookup truthy str
  id_of step = let v = lookup "id" step in if truthy v then some (str v) else none

  -- `_by_id`: a later step replaces an earlier one.
  unfoldable pub by_id : List Fields → Dict Fields → Dict Fields
  unfolding id_of put
  by_id [] out = out
  by_id (s ∷ ss) out =
      let next : Dict Fields = elim (id_of (to_dict s)) [ none ↦ out | some sid ↦ put sid s out ] in
      by_id ss next

  -- A step of the parent, with the child's step of the same id merged over it.
  unfoldable pub merge_step : Dict Fields → Dict Value → Dict Value
  unfolding id_of get merge_fields
  merge_step child_map ps = elim (id_of ps) [
    | none ↦ ps
    | some sid ↦ elim (get sid child_map) [ none ↦ ps | some cs ↦ merge_fields ps cs ]
  ]

  -- The ids of the parent's steps that the child overrides.
  unfoldable pub used_ids : Dict Fields → List Fields → List String
  unfolding id_of get
  used_ids child_map [] = []
  used_ids child_map (p ∷ ps) =
      let rest = used_ids child_map ps in
      elim (id_of (to_dict p)) [
        | none ↦ rest
        | some sid ↦ if contains sid child_map then sid ∷ rest else rest
      ]

  -- The child's steps with an id that is new.
  unfoldable pub new_steps : List String → Dict Fields → List Fields → List Fields
  unfolding id_of get elem
  new_steps used parent_map [] = []
  new_steps used parent_map (c ∷ cs) =
      let rest = new_steps used parent_map cs in
      elim (id_of (to_dict c)) [
        | none ↦ rest
        | some sid ↦ if elem sid used || contains sid parent_map then rest else c ∷ rest
      ]

  -- `_merge_steps_by_id`
  unfoldable pub merge_steps_by_id : List Fields → List Fields → List (Dict Value)
  unfolding by_id merge_step used_ids new_steps
  merge_steps_by_id parents children =
      let child_map = by_id children [] in
      map (λ p. merge_step child_map (to_dict p)) parents
      ++ map to_dict (new_steps (used_ids child_map parents) (by_id parents []) children)

  abbrev steps_in : Value → List Value
  steps_in v = elim (as_list v) [ none ↦ [] | some vs ↦ vs ]

  -- `_merge_pipeline_docs`
  unfoldable pub merge_pipelines : Dict Value → Fields → Dict Value
  unfolding merge_fields merge_steps_by_id lookup put
  merge_pipelines parent child =
      let merged = merge_fields parent child in
      let parents = steps_in (lookup "steps" parent) in
      let children = steps_in (lookup "steps" (to_dict child)) in
      let steps = merge_steps_by_id (mappings_of parents) (mappings_of children) in
      elim (parents ++ children) [
        | [] ↦ merged
        | v ∷ vs ↦ put "steps" (items (of_list (map (λ d. object (of_dict d)) steps))) merged
      ]
