-- ===== src/Pipeline/Actions/AddCommand.antt =====
-- actions/add_command_action.py: links for commands behind the answer.
pub mod Laws
use Prim.Native.String.{◌++◌ as append_text}
use local_ai_rag.Prelude.{
  String, Bool, true, false, ◌||◌, Option, none, some, List, [], ◌∷◌, if◌then◌else◌,
}
use local_ai_rag.Prelude.Options.{◌>>=◌}
use local_ai_rag.Text.{is_empty, strip}
use local_ai_rag.Text.Chars.{join}
use local_ai_rag.Value.{
  Value, null, text, items, object, to_list, to_dict, lookup, str_or_empty, Builtins,
}
use local_ai_rag.Pipeline.Result.{Result, ok, err}
use local_ai_rag.Pipeline.Definitions.{StepDef}
use local_ai_rag.Pipeline.State.{State}
use local_ai_rag.Pipeline.Inbox.{Action}
use local_ai_rag.Access.Policies.{none_if_empty}
use local_ai_rag.Access.Commands.{
  Command, Diagrams, command_type, requires_sanitized_answer, get_command, default_commands,
  can_execute, build_link,
}

-- The field that the links are appended to.
pub data AnswerField : Type 0 where
  final_answer : AnswerField
  answer_translated : AnswerField
  answer_neutral : AnswerField
  last_model_response : AnswerField

-- `_select_base_text`
unfoldable pub select_base_text : State → Option (String × AnswerField)
select_base_text s = elim (s.final_answer >>= none_if_empty) [
  | some t ↦ some (t, final_answer)
  | none ↦ elim (s.answer_translated >>= none_if_empty) [
    | some t ↦ some (t, answer_translated)
    | none ↦ elim (s.answer_neutral >>= none_if_empty) [
      | some t ↦ some (t, answer_neutral)
      | none ↦ elim (s.last_model_response >>= none_if_empty) [
        | some t ↦ some (t, last_model_response)
        | none ↦ none
      ]
    ]
  ]
]

-- `_write_back`
unfoldable pub write_back : AnswerField → String → State → State
write_back final_answer t s = record s { final_answer = some t }
write_back answer_translated t s = record s { answer_translated = some t }
write_back answer_neutral t s = record s { answer_neutral = some t }
write_back last_model_response t s = record s { last_model_response = some t }

-- The command of a type with its link, where it may be offered.
unfoldable pub offer : Diagrams → String → State → String → Option (Command × String)
unfolding get_command can_execute build_link
offer diagrams base s kind = elim (get_command kind default_commands) [
  | err e ↦ none
  | ok c ↦
      let link =
        elim (build_link diagrams c base s >>= none_if_empty) as (λ o. Option (Command × String)) [
          | none ↦ none
          | some l ↦ some (c, l)
        ] in
      if can_execute c s then link else none
]

-- The loop over the types.
unfoldable pub offers : Diagrams → String → State → List String → List (Command × String)
unfolding offer
offers diagrams base s [] = []
offers diagrams base s (kind ∷ kinds) =
    let rest = offers diagrams base s kinds in
    elim (offer diagrams base s kind) [ none ↦ rest | some o ↦ o ∷ rest ]

abbrev pub types_of : List (Command × String) → List String
types_of [] = []
types_of ((c, l) ∷ os) = command_type c ∷ types_of os

abbrev pub links_of : List (Command × String) → List String
links_of [] = []
links_of ((c, l) ∷ os) = l ∷ links_of os

abbrev pub any_sanitized : List (Command × String) → Bool
any_sanitized [] = false
any_sanitized ((c, l) ∷ os) = requires_sanitized_answer c || any_sanitized os

-- The answer with the links behind it.
unfoldable pub with_links : Diagrams → String → List (Command × String) → String
unfolding join
with_links diagrams base os = join "" (
    (if any_sanitized os then diagrams.sanitize base else base)
    ∷ "\n\n<div class=\"command-links\">"
    ∷ join " " (links_of os)
    ∷ "</div>"
    ∷ [])

module _ ⦃py : Builtins⦄ where
  abbrev type_of : Value → String
  unfolding strip str_or_empty lookup
  type_of (text s) = strip s
  type_of (object fs) = str_or_empty (lookup "type" (to_dict fs))
  type_of v = ""

  abbrev types_in : List Value → List String
  types_in [] = []
  types_in (v ∷ vs) =
      let rest = types_in vs in if is_empty (type_of v) then rest else type_of v ∷ rest

  -- `_extract_command_types`
  unfoldable pub extract_command_types : StepDef → List String
  unfolding strip str_or_empty lookup
  extract_command_types step = elim (lookup "commands" step.raw) [
    | items vs ↦ types_in (to_list vs)
    | v ↦ []
  ]

  -- `do_execute`
  unfoldable pub add_command : Diagrams → Action
  unfolding extract_command_types select_base_text offers with_links write_back
  add_command diagrams step s = elim (select_base_text s) [
    | none ↦ (ok null, s)
    | some (base, into) ↦ elim (offers diagrams base s (extract_command_types step)) [
      | [] ↦ (ok null, s)
      | o ∷ os ↦ (
        ok null,
        write_back into (with_links diagrams base (o ∷ os))
            (record s { commands_applied = types_of (o ∷ os) }),
      )
    ]
  ]
