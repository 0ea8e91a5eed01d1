-- ===== src/Callback/Policy.antt =====
-- work_callback/policy.py: which callback events a client may see.
pub mod Laws
use Prim.Native.Char.{Char, code}
use Prim.Native.String.{[] as empty_text, ◌∷◌ as text_cons}
use local_ai_rag.Prelude.{
  String, Bool, true, false, not, ◌&&◌, ◌||◌, Option, none, some, List, [], ◌∷◌, ◌++◌,
  if◌then◌else◌, ◌==◌, leb, or_default, is_some, keep_if,
}
use local_ai_rag.Text.{is_empty, strip}
use local_ai_rag.Dict.{Dict, get, contains}
use local_ai_rag.Value.{
  Value, Values, nil, cons, flag, Builtins, null, text, items, object, truthy, lookup, str,
  str_or_empty, to_list,
}
use local_ai_rag.Pipeline.Validator.Rules.{elem}

pub record CallbackPolicy : Type 0 where
  pub enabled : Bool
  pub include_documents : Bool
  pub global_mode : String
  pub pipeline_mode : String
  pub stage_visibility_mode : String
  pub stage_visibility_pipeline_mode : String
  pub content_modes : List String

abbrev pub default_callback_policy : CallbackPolicy
default_callback_policy = record {
  enabled = true;
  include_documents = true;
  global_mode = "allowed";
  pipeline_mode = "allowed";
  stage_visibility_mode = "allowed";
  stage_visibility_pipeline_mode = "allowed";
  content_modes = "all" ∷ [];
}

abbrev aliases : Dict String
aliases =
    ("allawed", "allowed")
    ∷ ("allow", "allowed")
    ∷ ("pipeline_decison", "pipeline_decision")
    ∷ ("pipeline_decision", "pipeline_decision")
    ∷ ("forbidden", "forbidden")
    ∷ ("pipeline-driven", "pipeline_driven")
    ∷ ("pipeline_driven", "pipeline_driven")
    ∷ ("explicit", "explicit")
    ∷ ("documents_fordbiden", "documents_forbidden")
    ∷ ("documents_forbiden", "documents_forbidden")
    ∷ ("documents_forbidden", "documents_forbidden")
    ∷ ("document_forbidden", "documents_forbidden")
    ∷ []

abbrev pub global_callback_values : List String
global_callback_values = "allowed" ∷ "pipeline_decision" ∷ "forbidden" ∷ []

abbrev pub pipeline_callback_values : List String
pipeline_callback_values = "allowed" ∷ "forbidden" ∷ []

abbrev pub global_stage_visibility_values : List String
global_stage_visibility_values = "allowed" ∷ "forbidden" ∷ "pipeline_driven" ∷ "explicit" ∷ []

abbrev pub pipeline_stage_visibility_values : List String
pipeline_stage_visibility_values = "allowed" ∷ "forbidden" ∷ "explicit" ∷ []

abbrev content_values : List String
content_values = "all" ∷ "documents_forbidden" ∷ []

-- The pieces of a text between commas and semicolons.
abbrev is_separator : Char → Bool
is_separator c = (leb 44 (code c) && leb (code c) 44) || (leb 59 (code c) && leb (code c) 59)

first_piece : String → String × List String
first_piece empty_text = (empty_text, [])
first_piece (text_cons c s) =
    let (piece, pieces) = first_piece s in
    if is_separator c then (empty_text, piece ∷ pieces) else (text_cons c piece, pieces)

-- The stripped elements of a list of texts that are not empty.
unfoldable pub strip_all : List String → List String
unfolding strip
strip_all [] = []
strip_all (x ∷ xs) = let rest = strip_all xs in if is_empty (strip x) then rest else strip x ∷ rest

unfoldable pub split_tokens : String → List String
unfolding first_piece strip_all
split_tokens s = let (piece, pieces) = first_piece s in strip_all (piece ∷ pieces)

-- A set as a list without repetitions: `out.add(token)`
abbrev pub add_to_set : String → List String → List String
add_to_set x xs = if elem x xs then xs else xs ++ x ∷ []

abbrev or_default_set : List String → List String → List String
or_default_set d [] = d
or_default_set d (x ∷ xs) = x ∷ xs

abbrev pub include_documents : List String → Bool
include_documents modes = not (elem "documents_forbidden" modes)

-- The precedence of the global switch over the pipeline's.
abbrev pub resolve_enabled : String → String → Bool
resolve_enabled global_mode pipeline_mode =
    if global_mode == "forbidden"
    then false
    else if global_mode == "allowed"
    then true
    else pipeline_mode == "allowed"

abbrev pub resolve_stage_mode : String → String → String
resolve_stage_mode global_stage_mode pipeline_stage_mode =
    if global_stage_mode == "forbidden"
    then "forbidden"
    else if global_stage_mode == "allowed"
    then "allowed"
    else if global_stage_mode == "explicit"
    then "explicit"
    else if pipeline_stage_mode == "explicit"
    then "explicit"
    else if pipeline_stage_mode == "forbidden"
    then "forbidden"
    else "allowed"

-- `{"all"}`, with `"documents_forbidden"` added when the documents are left out.
abbrev pub content_modes_of : Bool → List String
content_modes_of documents = if documents then "all" ∷ [] else "all" ∷ "documents_forbidden" ∷ []

module _ ⦃py : Builtins⦄ where
  -- `_normalize_token`
  unfoldable pub normalize_token : Value → String
  unfolding str_or_empty get
  normalize_token value =
      let token = py.lower (str_or_empty value) in
      if is_empty token then "" else or_default (get token aliases) token

  -- `_normalize_global_mode` and its three companions: a token of the set, or "allowed".
  unfoldable pub normalize_mode : List String → Value → String
  unfolding normalize_token elem
  normalize_mode values value =
      let token = normalize_token value in if elem token values then token else "allowed"

  texts_of : List Value → List String
  unfolding str_or_empty
  texts_of [] = []
  texts_of (v ∷ vs) =
      let rest = texts_of vs in
      let token = str_or_empty v in if is_empty token then rest else token ∷ rest

  -- `_iter_tokens`
  unfoldable pub iter_tokens : Value → List String
  unfolding split_tokens texts_of str strip
  iter_tokens null = []
  iter_tokens (text s) = split_tokens s
  iter_tokens (items vs) = texts_of (to_list vs)
  iter_tokens v = strip (str v) ∷ []

  unfoldable pub content_of : List String → List String → List String
  unfolding normalize_token elem
  content_of out [] = out
  content_of out (item ∷ rest) =
      let token = normalize_token (text item) in
      content_of (if elem token content_values then add_to_set token out else out) rest

  unfoldable pub normalize_content_set : Value → List String → List String
  unfolding iter_tokens content_of
  normalize_content_set value default = or_default_set default (content_of [] (iter_tokens value))

  -- `_include_documents` of an empty set is true, which the test on membership gives too.
  unfoldable pub resolve_callback_policy : Dict Value → Dict Value → CallbackPolicy
  unfolding normalize_mode normalize_content_set lookup get elem
  resolve_callback_policy cfg pset =
      let global_mode = normalize_mode global_callback_values (lookup "callback" cfg) in
      let pipeline_mode = normalize_mode pipeline_callback_values (lookup "callback" pset) in
      let global_stage_mode =
        normalize_mode global_stage_visibility_values (lookup "stages_visibility" cfg) in
      let pipeline_stage_mode =
        normalize_mode pipeline_stage_visibility_values (lookup "stages_visibility" pset) in
      let global_content = normalize_content_set (lookup "callback_content" cfg) ("all" ∷ []) in
      let pipeline_content =
        normalize_content_set (lookup "callback_content" pset)
          (if contains "callback_content" pset then "all" ∷ [] else []) in
      let documents = include_documents global_content && include_documents pipeline_content in
      record {
        enabled = resolve_enabled global_mode pipeline_mode;
        include_documents = documents;
        global_mode = global_mode;
        pipeline_mode = pipeline_mode;
        stage_visibility_mode = resolve_stage_mode global_stage_mode pipeline_stage_mode;
        stage_visibility_pipeline_mode = pipeline_stage_mode;
        content_modes = content_modes_of documents;
      }

  abbrev truthy_or : Bool → Option Value → Bool
  truthy_or d none = d
  truthy_or d (some v) = truthy v

  unfoldable pub policy_of : Dict Value → CallbackPolicy
  unfolding normalize_mode normalize_content_set truthy lookup get elem
  policy_of raw =
      let documents = truthy_or true (get "include_documents" raw) in
      let modes = normalize_content_set (lookup "content_modes" raw) ("all" ∷ []) in
      record {
        enabled = truthy_or true (get "enabled" raw);
        include_documents = documents;
        global_mode = normalize_mode global_callback_values (lookup "global_mode" raw);
        pipeline_mode = normalize_mode pipeline_callback_values (lookup "pipeline_mode" raw);
        stage_visibility_mode =
            normalize_mode global_stage_visibility_values (lookup "stage_visibility_mode" raw);
        stage_visibility_pipeline_mode =
            normalize_mode pipeline_stage_visibility_values
              (lookup "stage_visibility_pipeline_mode" raw);
        content_modes = if documents then modes else add_to_set "documents_forbidden" modes;
      }

  unfoldable pub callback_policy_from_dict : Option (Dict Value) → CallbackPolicy
  unfolding policy_of
  callback_policy_from_dict none = default_callback_policy
  callback_policy_from_dict (some raw) = policy_of raw

abbrev pub or_allowed : String → String
or_allowed s = if is_empty s then "allowed" else s

-- `sorted(set(modes))`, of the two content modes that there are.
abbrev pub sorted_modes : List String → Values
sorted_modes modes =
    (if elem "all" modes then cons (text "all") else (λ vs. vs))
      (if elem "documents_forbidden" modes then cons (text "documents_forbidden") nil else nil)

unfoldable pub callback_policy_to_dict : CallbackPolicy → Dict Value
unfolding elem
callback_policy_to_dict policy =
    ("enabled", flag policy.enabled)
    ∷ ("include_documents", flag policy.include_documents)
    ∷ ("global_mode", text (or_allowed policy.global_mode))
    ∷ ("pipeline_mode", text (or_allowed policy.pipeline_mode))
    ∷ ("stage_visibility_mode", text (or_allowed policy.stage_visibility_mode))
    ∷ ("stage_visibility_pipeline_mode", text (or_allowed policy.stage_visibility_pipeline_mode))
    ∷ ("content_modes", items (sorted_modes policy.content_modes))
    ∷ []
