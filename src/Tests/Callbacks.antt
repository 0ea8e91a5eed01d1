-- ===== src/Tests/Callbacks.antt =====
-- The callback policy, the trace broker and the cancellation registry.
use local_ai_rag.Prelude.{true, false, none, some, [], ◌∷◌, ◌≡◌, ◌↔◌, refl, arith}
use local_ai_rag.Text.{strip}
use local_ai_rag.Dict.{Dict, get, put, drop_if}
use local_ai_rag.Value.{Value, text, lookup, items, nil, cons}
use local_ai_rag.Pipeline.Result.{ok}
use local_ai_rag.Callback.Policy.{
  resolve_callback_policy, callback_policy_from_dict, callback_policy_to_dict, normalize_mode,
  global_callback_values, pipeline_callback_values,
}
use local_ai_rag.Callback.Policy.Laws.{LowerKeeps, resolve-roundtrip, Enables, enabled-precedence}
use local_ai_rag.Pipeline.Validator.Rules.{elem}
use local_ai_rag.Callback.Broker.{Broker, Opened, new_broker, open_stream, deliver}
use local_ai_rag.Callback.Broker.Laws.{
  IsValid, Reachable, start, also, opens, delivers, Reachable-IsValid,
}
use local_ai_rag.Callback.Broker.Follows.{Follows, none_yet, then_also, delivers}
use local_ai_rag.Callback.Broker.Stream.{open_stream-Follows}
use local_ai_rag.Callback.Cancel.{
  CancelRegistry, request_cancel, is_cancelled, get_reason, clear, reason_or_cancelled,
}
use local_ai_rag.Callback.Cancel.Laws.{
  request_cancel-is_cancelled, clear-is_cancelled, others_keep-get_reason,
}
use local_ai_rag.Tests.Fixtures.{plain}

plain-LowerKeeps : LowerKeeps plain
plain-LowerKeeps = record { words = (refl, (refl, (refl, (refl, (refl, (refl, (refl, tt))))))) }

abbrev server : Dict Value
server =
    ("callback", text "pipeline_decison")
    ∷ ("stages_visibility", text "pipeline-driven")
    ∷ ("callback_content", items (cons (text "all") (cons (text "documents_forbiden") nil)))
    ∷ []

abbrev pipeline_settings : Dict Value
pipeline_settings = ("callback", text "allawed") ∷ ("stages_visibility", text "explicit") ∷ []

resolve-roundtrip_example :
    callback_policy_from_dict
      (some (callback_policy_to_dict (resolve_callback_policy server pipeline_settings)))
    ≡ resolve_callback_policy server pipeline_settings
resolve-roundtrip_example = resolve-roundtrip plain-LowerKeeps server pipeline_settings

enabled-precedence_example :
    (resolve_callback_policy server pipeline_settings).enabled ≡ true
    ↔ Enables
        (normalize_mode global_callback_values (lookup "callback" server))
        (normalize_mode pipeline_callback_values (lookup "callback" pipeline_settings))
enabled-precedence_example = enabled-precedence server pipeline_settings

enabled_test : (resolve_callback_policy server pipeline_settings).enabled ≡ true
unfolding resolve_callback_policy
enabled_test = refl

abbrev event : Dict Value
event = ("type", text "step") ∷ []

-- One event before the stream is opened, and one behind it.
abbrev first_opened : Broker
first_opened = (open_stream 0 "r1" new_broker).1

abbrev one_event : Broker
one_event = deliver 5 "r1" event first_opened

one_event-Reachable : Reachable one_event
one_event-Reachable = also (also start (opens 0 "r1")) (delivers 5 "r1" event)

Reachable-IsValid_example : IsValid one_event
Reachable-IsValid_example = Reachable-IsValid one_event one_event-Reachable

abbrev second : Opened
second = record { queue = 1; snapshot = event ∷ []; is_closed = false; reason = "" }

second_test : (open_stream 7 " r1" one_event).0 ≡ ok second
unfolding open_stream deliver put get strip
second_test = refl

abbrev second_opened : Broker
second_opened = (open_stream 7 " r1" one_event).1

open_stream-Follows_example :
    Follows (strip " r1") 1 (event ∷ []) (deliver 9 "r1" event second_opened)
unfolding elem deliver open_stream
open_stream-Follows_example =
    open_stream-Follows 7 " r1" one_event (deliver 9 "r1" event second_opened) second
      one_event-Reachable second_test refl refl (then_also none_yet (delivers 9 "r1" event))

abbrev cancelled : CancelRegistry
cancelled = request_cancel 100 101 "r1" "client_cancel" []

request_cancel-is_cancelled_example :
    (is_cancelled "r1" cancelled ≡ true)
    × (get_reason "r1" cancelled ≡ some (reason_or_cancelled "client_cancel"))
unfolding strip
request_cancel-is_cancelled_example =
    request_cancel-is_cancelled 100 101 "r1" "client_cancel" [] refl (omega arith)

clear-is_cancelled_example :
    (is_cancelled "r1" (clear 200 "r1" cancelled) ≡ false)
    × (get_reason "r1" (clear 200 "r1" cancelled) ≡ none)
clear-is_cancelled_example = clear-is_cancelled 200 "r1" cancelled

there_test : get (strip "r1") cancelled ≡ some (record { ts = 100; reason = "client_cancel" })
unfolding request_cancel get put drop_if
there_test = refl

others_keep-get_reason_example :
    (get (strip "r1") (request_cancel 150 151 "r2" "" cancelled)
      ≡ some (record { ts = 100; reason = "client_cancel" }))
    × (get (strip "r1") (clear 151 "r2" cancelled)
        ≡ some (record { ts = 100; reason = "client_cancel" }))
unfolding strip
others_keep-get_reason_example =
    others_keep-get_reason 150 151 "r1" "r2" "" (record { ts = 100; reason = "client_cancel" })
      cancelled refl there_test (omega arith)
