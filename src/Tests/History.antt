-- ===== src/Tests/History.antt =====
-- The conversation history.
use local_ai_rag.Prelude.{false, none, some, List, [], ◌∷◌, ◌≡◌, refl}
use local_ai_rag.Text.{strip, is_empty}
use local_ai_rag.Dict.{get, put}
use local_ai_rag.Pipeline.Result.{ok, err, value_error}
use local_ai_rag.History.Turn.{ConversationTurn, Answer}
use local_ai_rag.History.Sessions.{
  Sessions, Question, start_turn, finalize_turn, finalize_last, list_recent_finalized_turns,
  new_turn, load, save, key,
}
use local_ai_rag.History.Sessions.Laws.{start_turn-again, IsCapped, writes-IsCapped}
use local_ai_rag.History.Sessions.Answered.{
  Finalized, IsAnswered, finalize_last-Finalized, IsAnswered, start-finalize-list,
}
use local_ai_rag.History.Service.{Service, on_request_started, on_request_finalized}
use local_ai_rag.History.Service.Laws.{Linked, requests-Linked, other_user_refused}

abbrev question : Question
question = record {
  identity_id = none;
  neutral = "why?";
  translated = none;
  meta = [];
  turn_id = "t1";
  now = "2026-01-01T00:00:00Z";
}

abbrev other_question : Question
other_question = record question { neutral = "how?"; turn_id = "t2" }

abbrev answer : Answer
answer = record { neutral = "so"; translated = none; is_fallback = none; meta = [] }

abbrev once : Sessions
once = (start_turn 2 "s" "r1" question []).1

started_test : (start_turn 2 "s" "r1" question []).0 ≡ ok "t1"
unfolding start_turn load get strip
started_test = refl

id_test : is_empty (strip "t1") ≡ false
unfolding strip
id_test = refl

start_turn-again_example : start_turn 2 "s" "r1" other_question once ≡ (ok "t1", once)
start_turn-again_example =
    start_turn-again 2 "s" "r1" question other_question [] "t1" id_test started_test

nothing-IsCapped : IsCapped 2 []
unfolding IsCapped
nothing-IsCapped = tt

writes-IsCapped_example :
    IsCapped 2 (start_turn 2 "s" "r1" question []).1
    × IsCapped 2 (finalize_turn 2 "s" "r1" "t1" "now" answer []).1
writes-IsCapped_example = writes-IsCapped 2 "s" "r1" "t1" "now" question answer [] nothing-IsCapped

abbrev two_turns : List ConversationTurn
two_turns = new_turn "s" "r1" question ∷ new_turn "s" "r2" other_question ∷ []

finalize_last-Finalized_example :
    Finalized "t1" "now" answer two_turns (finalize_last "t1" "now" answer two_turns)
finalize_last-Finalized_example = finalize_last-Finalized "t1" "now" answer two_turns

start-finalize-list_example :
    (t : ConversationTurn) × (list_recent_finalized_turns "s" 1
        (finalize_turn 2 "s" "r1" "t1" "now" answer (start_turn 2 "s" "r1" question []).1).1
      ≡ t ∷ [])
    × IsAnswered "s" "r1" "now" question answer t
unfolding strip load get
start-finalize-list_example =
    start-finalize-list 1 "s" "r1" "now" question answer [] refl refl refl refl refl refl refl

-- With room for one turn, the first request is still known by its turn when the turn is gone: it starts
-- with the old id, and the finalization fails.
abbrev crowded : Sessions
crowded = (start_turn 1 "s" "r2" other_question (start_turn 1 "s" "r1" question []).1).1

stale_test : (start_turn 1 "s" "r1" question crowded).0 ≡ ok "t1"
unfolding start_turn load save key get put strip
stale_test = refl

lost_test :
    (finalize_turn 1 "s" "r1" "t1" "now" answer crowded).0
    ≡ err (value_error "finalize_turn: turn_id not found")
unfolding finalize_turn start_turn load save key get put strip
lost_test = refl

abbrev linked : Service
linked = record { sessions = []; durable = none; session_to_identity = ("s", "ann") ∷ [] }

linked_test : Linked "s" "ann" refl linked
unfolding get
linked_test = refl

requests-Linked_example :
    Linked "s" "ann" refl (on_request_started 2 "s" "r1" "f" (some "bob") question linked).1
    × Linked "s" "ann" refl
        (on_request_finalized 2 "s" "r1" "f" (some "bob") (some "t1") "now" answer linked).1
requests-Linked_example =
    requests-Linked "s" "ann" refl 2 "s" "r1" "f" "now" (some "bob") (some "t1") question answer
      linked linked_test

other_user_refused_example :
    (on_request_started 2 "s" "r1" "f" (some "bob") question linked
      ≡ (err (value_error "session_id already linked to a different identity_id"), linked))
    × (on_request_finalized 2 "s" "r1" "f" (some "bob") (some "t1") "now" answer linked
        ≡ (err (value_error "session_id already linked to a different identity_id"), linked))
unfolding strip get
other_user_refused_example =
    other_user_refused 2 "s" "r1" "f" "now" "bob" "ann" (some "t1") question answer linked refl refl
      refl refl refl
