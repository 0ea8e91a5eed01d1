-- ===== src/Tests/Commands.antt =====
-- An answer with a diagram, and a user who may export it but not show it.
use local_ai_rag.Prelude.{◌≡◌, refl, ◌⊎◌, some, [], ◌∷◌}
use local_ai_rag.Value.{null, text, items, cons, nil}
use local_ai_rag.Pipeline.Result.{ok}
use local_ai_rag.Pipeline.Definitions.{StepDef}
use local_ai_rag.Pipeline.State.{State, new_state}
use local_ai_rag.Access.Commands.{
  Diagrams, show_diagram, ea_export, register_command, default_commands,
}
use local_ai_rag.Pipeline.Actions.AddCommand.{add_command}
use local_ai_rag.Pipeline.Actions.AddCommand.Laws.{HasNoOffer, Shows, add_command-IsPermitted}
use local_ai_rag.Tests.Fixtures.{plain}

abbrev diagrams : Diagrams
diagrams = record {
  find_diagram = λ s. some s;
  xmi_b64 = λ s. some "eG1p";
  encode = λ s. "abc";
  server = "http://uml/";
  sanitize = λ s. s;
}

abbrev step : StepDef
step = record {
  id = "links";
  action = "add_command_action";
  raw = ("commands", items (cons (text "showDiagram") (cons (text "ea_export") nil))) ∷ [];
}

abbrev answered : State
answered = record (new_state "draw") {
  answer_neutral = some "uml";
  allowed_commands = "ea_export" ∷ [];
}

-- The registry is what registering its two commands gives.
default_registered :
    register_command ea_export (("showDiagram", show_diagram) ∷ []) ≡ ok default_commands
unfolding register_command
default_registered = refl

exports_only : (add_command diagrams step answered).1.commands_applied ≡ "ea_export" ∷ []
unfolding add_command
exports_only = refl

add_command-IsPermitted_example :
    ((add_command diagrams step answered).0 ≡ ok null)
    × ((((add_command diagrams step answered).1 ≡ answered) × HasNoOffer diagrams step answered)
        ⊎ Shows diagrams answered (add_command diagrams step answered).1)
add_command-IsPermitted_example = add_command-IsPermitted diagrams step answered
