-- ===== src/Access/Commands.antt =====
-- server/commands/: the commands that a user may be offered behind an answer, and their registry. The search
-- for a diagram in a text, its export and encoding, and the server's address are arguments.
use local_ai_rag.Prelude.{String, Bool, true, Option, none, some, [], ◌∷◌, if◌then◌else◌}
use local_ai_rag.Text.{is_empty, strip, contains_text}
use local_ai_rag.Text.Chars.{is_code, rstrip_of, join}
use local_ai_rag.Dict.{Dict, get, put}
use local_ai_rag.Pipeline.Result.{Result, ok, err, value_error, key_error}
use local_ai_rag.Pipeline.State.{State}
use local_ai_rag.Pipeline.Validator.Rules.{elem}

pub data Command : Type 0 where
  show_diagram : Command
  ea_export : Command

abbrev pub command_type : Command → String
command_type show_diagram = "showDiagram"
command_type ea_export = "ea_export"

abbrev pub required_permission : Command → String
required_permission show_diagram = "showDiagram"
required_permission ea_export = "ea_export"

abbrev pub requires_sanitized_answer : Command → Bool
requires_sanitized_answer show_diagram = true
requires_sanitized_answer ea_export = true

-- `CommandRegistry.register`
unfoldable pub register_command : Command → Dict Command → Result (Dict Command)
unfolding strip put
register_command command commands =
    let key = strip (command_type command) in
    if is_empty key
    then err (value_error "Command type is empty.")
    else ok (put key command commands)

-- `CommandRegistry.get`
unfoldable pub get_command : String → Dict Command → Result Command
unfolding strip get
get_command kind commands = elim (get (strip kind) commands) [
  | none ↦ err (key_error "Unknown command type")
  | some c ↦ ok c
]

-- `build_default_command_registry`
abbrev pub default_commands : Dict Command
default_commands = ("showDiagram", show_diagram) ∷ ("ea_export", ea_export) ∷ []

-- `BaseCommand.can_execute`
unfoldable pub can_execute : Command → State → Bool
unfolding elem
can_execute command s = elem (required_permission command) s.allowed_commands

-- What the commands use of other parts.
pub record Diagrams : Type 0 where
  pub find_diagram : String → Option String
  pub xmi_b64 : String → Option String
  pub encode : String → String
  pub server : String
  pub sanitize : String → String

module _ (diagrams : Diagrams) where
  -- `ShowDiagramCommand.build_link`
  unfoldable pub diagram_link : String → Bool → Option String
  unfolding strip rstrip_of contains_text join
  diagram_link answer polish =
      let server = rstrip_of (is_code 47) (strip diagrams.server) in
      let label = if polish then "Otwórz diagram UML" else "Open UML diagram" in
      let link_to : String → Option String = λ diagram.
        (let link = join "" (server ∷ "/uml/" ∷ diagrams.encode diagram ∷ []) in
          if contains_text link answer
          then none
          else some (
              join "" (
                "<a class=\"command-link\" href=\"" ∷ link
                ∷ "\" target=\"_blank\" rel=\"noopener noreferrer\">" ∷ label ∷ "</a>" ∷ []))) in
      if is_empty (strip answer)
      then none
      else if is_empty server
      then none
      else elim (diagrams.find_diagram answer) as (λ o. Option String) [
        | none ↦ none
        | some d ↦ link_to d
      ]

  -- `EaExportCommand.build_link`
  unfoldable pub export_link : String → Bool → Option String
  unfolding strip join
  export_link answer polish =
      let label = if polish then "Eksportuj do EA (XMI)" else "Export to EA (XMI)" in
      let snippet : String → String = λ b64. join "" (
        "<a class=\"command-link command-ea-export\" href=\"#\" data-xmi-b64=\"" ∷ b64
        ∷ "\" data-filename=\"diagram.xmi\">" ∷ label ∷ "</a>" ∷ []) in
      let exported : Option String = elim (diagrams.find_diagram answer) [
        | none ↦ none
        | some d ↦ elim (diagrams.xmi_b64 d) [ none ↦ none | some b64 ↦ some (snippet b64) ]
      ] in
      if is_empty (strip answer) then none else exported

  -- `build_link`; the language of the label goes by `translate_chat`.
  unfoldable pub build_link : Command → String → State → Option String
  unfolding diagram_link export_link
  build_link show_diagram answer s = diagram_link answer s.translate_chat
  build_link ea_export answer s = export_link answer s.translate_chat
