-- ===== src/Tests/Context.antt =====
-- A step that puts the texts of nodes into a context of at most 150 characters.
use Prim.Native.String.{[] as empty_text, ◌∷◌ as text_cons}
use local_ai_rag.Prelude.{String, ℕ, suc, true, none, some, [], ◌∷◌, ◌≡◌, refl}
use local_ai_rag.Prelude.Int.{pos}
use local_ai_rag.Dict.{Dict}
use local_ai_rag.Value.{Value, text, num, object, items, cons, nil, end, field}
use local_ai_rag.Pipeline.Result.{ok}
use local_ai_rag.Pipeline.Definitions.{StepDef}
use local_ai_rag.Pipeline.State.{State, new_state}
use local_ai_rag.Pipeline.Inbox.{consume_inbox_for_step}
use local_ai_rag.Pipeline.Validator.Rules.{elem}
use local_ai_rag.Pipeline.Actions.ContextBudget.Rules.{Rule}
use local_ai_rag.Pipeline.Actions.ContextBudget.Loop.{Tools, sql}
use local_ai_rag.Pipeline.Actions.ContextBudget.Run.{demand_topics_for_step, manage_context_budget}
use local_ai_rag.Pipeline.Actions.ContextBudget.Laws.{Ends, manage_context_budget-Ends}
use local_ai_rag.Pipeline.Actions.ContextBudget.Retry.{manage_context_budget-retry}
use local_ai_rag.Tests.Fixtures.{plain}

abbrev size : String → ℕ
size empty_text = 0
size (text_cons c s) = suc (size s)

-- Every character is a token, every text is SQL, and a summary is one word.
abbrev tools : Tools ℕ
tools = record {
  token_counter = some (λ s. pos (size s));
  classify_text = λ s. sql;
  summarize_sql = λ s. ok "short";
  compress_dotnet = λ s. ok s;
  floats = record { float_of = λ v. none; in_unit = λ x. true; scaled = λ n x. n };
}

abbrev settings : Dict Value
settings = ("max_context_tokens", num (pos 150)) ∷ []

abbrev rule : Value
rule = object (
    field "language" (text "sql")
      (field "policy" (text "demand") (field "inbox_key" (text "compact") end)))

abbrev step : StepDef
step = record {
  id = "budget";
  action = "manage_context_budget";
  raw =
      ("on_ok", text "answer")
      ∷ ("on_over", text "compact")
      ∷ ("divide_new_content", text "<<<")
      ∷ ("compact_code", object (field "rules" (items (cons rule nil)) end))
      ∷ [];
}

abbrev node : Dict Value
node = ("id", text "n1") ∷ ("path", text "a.sql") ∷ ("text", text "select 1") ∷ []

abbrev before : State
before = record (new_state "why?") { context_blocks = "<<<\nold" ∷ []; node_texts = node ∷ [] }

fits : (manage_context_budget tools settings step before).0 ≡ ok (text "answer")
unfolding manage_context_budget
fits = refl

fits_blocks :
    (manage_context_budget tools settings step before).1.context_blocks
    ≡ "old"
      ∷ "<<<\n--- NODE ---\nid: n1\npath: a.sql\nlanguage: sql\ncompact: false\ntext:\nselect 1\n"
      ∷ []
unfolding manage_context_budget
fits_blocks = refl

manage_context_budget-Ends_example :
    (let (answer, after) = manage_context_budget tools settings step before in
      Ends tools settings step before answer after)
manage_context_budget-Ends_example = manage_context_budget-Ends tools settings step before

-- The same with a longer context, and a demand for compaction that the step has consumed.
abbrev full : State
full = record before {
  context_blocks =
      "a context that is already so long that one more node does not fit into it"
      ∷ "and that nobody will make shorter before the next round" ∷ [];
  inbox_last_consumed =
      record { target_step_id = "budget"; topic = "compact"; payload = none } ∷ [];
}

abbrev sql_rule : Rule ℕ
sql_rule = record { language = "sql"; policy = "demand"; threshold = none; inbox_key = "compact" }

manage_context_budget-retry_example :
    (let (answer, after) = manage_context_budget tools settings step full in
      (answer ≡ ok (text "compact"))
      × (elem "compact"
            (demand_topics_for_step "budget" (consume_inbox_for_step "budget" after.inbox).0)
          ≡ true))
unfolding manage_context_budget elem
manage_context_budget-retry_example =
    manage_context_budget-retry tools settings step full "compact" "answer" "compact" "<<<"
      (pos 150) (sql_rule ∷ []) refl refl refl refl refl
