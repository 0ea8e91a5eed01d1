-- ===== src/History/Sessions.antt =====
-- conversation_history/session_store_kv.py: `KvSessionConversationStore`. The backend is a dictionary from keys
-- to what the store has written there: encoding and decoding as JSON, the defences against entries of another
-- shape, and the expiry of entries are left out. `uuid.uuid4()` and the clock's text are arguments.
pub mod Laws
pub mod Answered
use Prim.Native.String.{◌++◌ as append_text}
use local_ai_rag.Prelude.{
  ℕ, zero, suc, ◌≤◌, String, Bool, true, false, not, ◌&&◌, ◌||◌, Option, none, some, List, [], ◌∷◌,
  ◌++◌, ◌==◌, if◌then◌else◌, last_n, keep_if, or_default,
}
use local_ai_rag.Text.{is_empty, strip, strip_opt}
use local_ai_rag.Dict.{Dict, get, put}
use local_ai_rag.Value.{Value}
use local_ai_rag.Pipeline.Result.{Result, ok, err, value_error}
use local_ai_rag.History.Turn.{ConversationTurn, Answer, finalize}

pub record SessionData : Type 0 where
  pub by_request : Dict String
  pub turns : List ConversationTurn

abbrev pub Sessions : Type 0
Sessions = Dict SessionData

-- `max_turns` of the constructor: a number that is not positive stands for 200.
abbrev pub cap : ℕ → ℕ
cap zero = 200
cap (suc n) = suc n

unfoldable pub key : String → String
key session_id = append_text "conv_hist:" session_id

abbrev pub no_data : SessionData
no_data = record { by_request = []; turns = [] }

-- `_load` and `_save`
unfoldable pub load : String → Sessions → SessionData
unfolding get key
load sid store = or_default (get (key sid) store) no_data

unfoldable pub save : String → SessionData → Sessions → Sessions
unfolding put key
save sid payload store = put (key sid) payload store

-- What the caller of `start_turn` hands in, and what the call makes up.
pub record Question : Type 0 where
  pub identity_id : Option String
  pub neutral : String
  pub translated : Option String
  pub meta : Dict Value
  pub turn_id : String
  pub now : String

abbrev pub new_turn : String → String → Question → ConversationTurn
new_turn sid rid q = record {
  turn_id = q.turn_id;
  session_id = sid;
  request_id = rid;
  created_at_utc = q.now;
  identity_id = q.identity_id;
  finalized_at_utc = none;
  question_neutral = q.neutral;
  answer_neutral = none;
  question_translated = q.translated;
  answer_translated = none;
  answer_translated_is_fallback = none;
  metadata = q.meta;
}

-- The turn is new.
abbrev pub add_turn : ℕ → String → String → Question → SessionData → SessionData
add_turn max_turns sid rid q saved = record {
  by_request = put rid q.turn_id saved.by_request;
  turns = last_n max_turns (saved.turns ++ new_turn sid rid q ∷ []);
}

abbrev pub start_in : ℕ → String → String → Question → Sessions → Result String × Sessions
start_in max_turns sid rid q store =
    let saved = load sid store in
    let existing = or_default (get rid saved.by_request) "" in
    if not (is_empty (strip existing))
    then (ok existing, store)
    else (ok q.turn_id, save sid (add_turn max_turns sid rid q saved) store)

unfoldable pub start_turn : ℕ → String → String → Question → Sessions → Result String × Sessions
unfolding load save strip last_n get put
start_turn max_turns session_id request_id q store =
    let sid = strip session_id in
    let rid = strip request_id in
    if is_empty sid
    then (err (value_error "start_turn: session_id is required"), store)
    else if is_empty rid
    then (err (value_error "start_turn: request_id is required"), store)
    else start_in max_turns sid rid q store

-- `for t in reversed(turns)`: the last turn of the id is finalized; `none` if there is none.
unfoldable pub finalize_last :
    String → String → Answer → List ConversationTurn → Option (List ConversationTurn)
finalize_last turn_id now answer [] = none
finalize_last turn_id now answer (t ∷ ts) =
    let rest = finalize_last turn_id now answer ts in
    elim rest [
      | some ts' ↦ some (t ∷ ts')
      | none ↦ if t.turn_id == turn_id then some (finalize now answer t ∷ ts) else none
    ]

abbrev pub finalize_in :
    ℕ
    → String
    → SessionData
    → Option (List ConversationTurn)
    → Sessions
    → Result (Unit {0}) × Sessions
finalize_in max_turns sid saved none store =
    (err (value_error "finalize_turn: turn_id not found"), store)
finalize_in max_turns sid saved (some turns) store =
    (ok tt, save sid (record saved { turns = last_n max_turns turns }) store)

unfoldable pub finalize_turn :
    ℕ → String → String → String → String → Answer → Sessions → Result (Unit {0}) × Sessions
unfolding load save strip last_n finalize_last
finalize_turn max_turns session_id request_id turn_id now answer store =
    let sid = strip session_id in
    let tid = strip turn_id in
    let saved = load sid store in
    if is_empty sid || is_empty (strip request_id) || is_empty tid
    then (err (value_error "finalize_turn: session_id/request_id/turn_id are required"), store)
    else finalize_in max_turns sid saved (finalize_last tid now answer saved.turns) store

abbrev pub is_finalized : ConversationTurn → Bool
is_finalized t =
    not (is_empty (strip_opt t.finalized_at_utc)) && not (is_empty (strip_opt t.answer_neutral))

abbrev pub limit_or_default : ℕ → ℕ
limit_or_default zero = 20
limit_or_default (suc n) = suc n

unfoldable pub list_recent_finalized_turns : String → ℕ → Sessions → List ConversationTurn
unfolding load strip strip_opt keep_if last_n
list_recent_finalized_turns session_id limit store =
    let sid = strip session_id in
    if is_empty sid
    then []
    else last_n (limit_or_default limit) (keep_if is_finalized (load sid store).turns)
