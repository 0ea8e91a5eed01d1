-- ===== src/Pipeline/Registry.antt =====
-- action_registry.py: actions by name. What an action is comes from the caller.
use local_ai_rag.Prelude.{String, not, Option, none, some}
use local_ai_rag.Text.{is_empty, strip}
use local_ai_rag.Dict.{Dict, get, put}
use local_ai_rag.Pipeline.Result.{Result, ok, err, key_error, ◌>>◌, require}

module _ {ℓ} {A : Type ℓ} where
  unfoldable pub register : String → A → Dict A → Result (Dict A)
  unfolding strip
  register name action actions =
      let key = strip name in
      do require (not (is_empty key)) "Action name is empty."; ok (put key action actions)

  abbrev pub or_unknown : Option A → Result A
  or_unknown none = err (key_error "Unknown action")
  or_unknown (some action) = ok action

  unfoldable pub get_action : String → Dict A → Result A
  unfolding strip get
  get_action name actions = or_unknown (get (strip name) actions)
