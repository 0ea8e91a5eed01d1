-- ===== src/Tests/Loader.antt =====
-- A pipeline that extends another one.
use local_ai_rag.Prelude.{none, [], ◌∷◌, ◌≡◌, refl, ◌==◌, if◌then◌else◌}
use local_ai_rag.Dict.{Dict}
use local_ai_rag.Value.{Value, Fields, text, object, items, cons, nil, end, field}
use local_ai_rag.Pipeline.Result.{ok, err, value_error}
use local_ai_rag.Pipeline.Loader.Files.{FileSystem, load_doc}
use local_ai_rag.Tests.Fixtures.{plain}

abbrev search : Fields
search = field "id" (text "search") (field "action" (text "search_nodes") end)

abbrev answer : Fields
answer = field "id" (text "answer") (field "action" (text "call_model") end)

-- The child changes the parent's second step and adds one.
abbrev other_answer : Fields
other_answer = field "id" (text "answer") (field "prompt_key" (text "short") end)

abbrev finish : Fields
finish = field "id" (text "finish") (field "action" (text "finalize") end)

abbrev base : Value
base = object (
    field "YAMLpipeline"
      (object (
        field "name" (text "base")
          (field "steps" (items (cons (object search) (cons (object answer) nil))) end)))
      end)

abbrev child : Value
child = object (
    field "YAMLpipeline"
      (object (
        field "name" (text "child") (
          field "extends" (text "base.yaml#base")
            (field "steps" (items (cons (object finish) (cons (object other_answer) nil))) end))))
      end)

abbrev files : FileSystem
files = record {
  yaml_of = λ path. if path == "base.yaml" then ok base else ok child;
  locate = λ path target. ok target;
}

loads_child :
    load_doc files 2 "child.yaml" none
    ≡ ok (
        ("name", text "child")
        ∷ (
          "steps",
          items (
              cons (object search) (
                cons
                  (object (
                    field "id"
                      (text "answer")
                      (field "action" (text "call_model") (field "prompt_key" (text "short") end))))
                  (cons (object finish) nil))),
        )
        ∷ [])
unfolding load_doc
loads_child = refl

-- One file is not enough.
too_deep :
    load_doc files 1 "child.yaml" none
    ≡ err (value_error "Too deep extends chain (possible cycle).")
unfolding load_doc
too_deep = refl
