-- ===== src/Pipeline/Loader/Files.antt =====
-- pipeline/loader.py: the choice of a pipeline in a file, and the chain of files that extend each other.
-- The file system is an argument: what a YAML file holds, and where the target of an `extends` lies.
use local_ai_rag.Prelude.{
  String, ℕ, zero, suc, not, Option, none, some, List, [], ◌∷◌, if◌then◌else◌, ◌==◌,
}
use Prim.Native.String.{[] as empty_text, ◌∷◌ as text_cons}
use local_ai_rag.Text.{is_empty, strip, contains_text}
use local_ai_rag.Text.Chars.{is_code}
use local_ai_rag.Dict.{Dict, put, remove}
use local_ai_rag.Value.{
  Value, Fields, null, object, end, to_dict, of_dict, as_list, lookup, str, str_or_empty, truthy,
  Builtins,
}
use local_ai_rag.Pipeline.Result.{Result, ok, err, value_error, key_error, ◌>>=◌, ◌>>◌, require}
use local_ai_rag.Pipeline.Definitions.{PipelineDef, parse_pipeline_doc}
use local_ai_rag.Access.Policies.{none_if_empty}
use local_ai_rag.Pipeline.Loader.{mappings_of, merge_pipelines}

pub record FileSystem : Type 0 where
  -- `yaml.safe_load` of a file's text, or the exception.
  pub yaml_of : String → Result Value
  -- `_normalize_extends_target` behind its first check: from the current file and the target.
  pub locate : String → String → Result String

-- The text in front of the first "#", and the text behind it.
abbrev cut_hash : String → String × String
cut_hash empty_text = (empty_text, empty_text)
cut_hash (text_cons c s) =
    let (front, back) = cut_hash s in
    if is_code 35 c then (empty_text, s) else (text_cons c front, back)

-- `_parse_extends_value`
unfoldable pub parse_extends_value : String → String × Option String
unfolding strip contains_text
parse_extends_value value =
    let v = strip value in
    let (front, back) = cut_hash v in
    if contains_text "#" v then (strip front, none_if_empty (strip back)) else (v, none)

-- `_extract_pipelines_container`
unfoldable pub pipelines_container : Fields → Option (List Fields)
unfolding lookup
pipelines_container doc = elim (as_list (lookup "YAMLpipelines" (to_dict doc))) [
  | some vs ↦ some (mappings_of vs)
  | none ↦ elim (as_list (lookup "pipelines" (to_dict doc))) [
    | some vs ↦ some (mappings_of vs)
    | none ↦ none
  ]
]

-- `_read_yaml`; an empty file is an empty mapping.
unfoldable pub read_yaml : FileSystem → String → Result Fields
read_yaml files path = elim (files.yaml_of path) [
  | err e ↦ err e
  | ok null ↦ ok end
  | ok (object fs) ↦ ok fs
  | ok v ↦ err (value_error "Pipeline YAML must be a mapping (dict).")
]

module _ ⦃py : Builtins⦄ where
  unfoldable pub find_named : String → List Fields → Result Fields
  unfolding str_or_empty lookup
  find_named name [] = err (key_error "Pipeline not found in multi-pipeline file.")
  find_named name (p ∷ ps) =
      let rest = find_named name ps in
      if str_or_empty (lookup "name" (to_dict p)) == name then ok p else rest

  -- One of several pipelines: by its name, or the only one.
  unfoldable pub select_item : Option String → List Fields → Result Fields
  unfolding find_named
  select_item name [] = err (value_error "Invalid pipeline YAML: pipelines list is empty.")
  select_item (some name) (p ∷ ps) = find_named name (p ∷ ps)
  select_item none (p ∷ []) = ok p
  select_item none (p ∷ q ∷ ps) =
      err
        (value_error "Multi-pipeline file requires pipeline_name (more than one pipeline present).")

  -- `_select_pipeline_from_doc`: the fields of one pipeline. An empty name counts as none.
  unfoldable pub select_pipeline : Fields → Option String → Result Fields
  unfolding pipelines_container select_item lookup
  select_pipeline doc name = elim (lookup "YAMLpipeline" (to_dict doc)) [
    | object fs ↦ ok fs
    | v ↦ elim (pipelines_container doc) [
      | none ↦ err (
          value_error
            "Invalid pipeline YAML: expected 'YAMLpipeline' or 'YAMLpipelines'/'pipelines'.")
      | some ps ↦ select_item (elim name [ none ↦ none | some n ↦ none_if_empty n ]) ps
    ]
  ]

  -- What a child makes of the document that it extends: its own name stays, and `extends` goes.
  unfoldable pub inherit : Dict Value → Fields → Dict Value
  unfolding merge_pipelines lookup truthy put remove
  inherit parent child =
      let merged = merge_pipelines parent child in
      let name = lookup "name" (to_dict child) in
      remove "extends" (if truthy name then put "name" name merged else merged)

  -- `_load_doc_with_extends` with the depth that is left.
  unfoldable pub load_doc : FileSystem → ℕ → String → Option String → Result (Dict Value)
  unfolding read_yaml select_pipeline inherit parse_extends_value lookup truthy str
  load_doc files zero path name = err (value_error "Too deep extends chain (possible cycle).")
  load_doc files (suc n) path name = do
    raw ← read_yaml files path
    child ← select_pipeline raw name
    let extends = lookup "extends" (to_dict child)
    let (target, parent_name) = parse_extends_value (str extends)
    let inherited : Result (Dict Value) = do
      require (not (is_empty target)) "extends target cannot be empty."
      parent_path ← files.locate path target
      parent ← load_doc files n parent_path parent_name
      ok (inherit parent child)
    if truthy extends then inherited else ok (to_dict child)

  -- `depth > 20` stops: 21 files are read at most.
  abbrev pub max_files : ℕ
  max_files = 21

  -- `load_from_path`
  unfoldable pub load_from_path : FileSystem → String → Option String → Result PipelineDef
  unfolding load_doc parse_pipeline_doc
  load_from_path files path name = do
    d ← load_doc files max_files path name
    parse_pipeline_doc (("YAMLpipeline", object (of_dict d)) ∷ [])
