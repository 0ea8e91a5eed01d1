-- ===== src/History/Service.antt =====
-- conversation_history/service.py: `ConversationHistoryService` on the session store and, if there is one, the
-- durable store in memory. `uuid.uuid4()` and the clock's texts are arguments.
pub mod Laws
use local_ai_rag.Prelude.{
  ℕ, String, Bool, true, false, not, ◌&&◌, ◌||◌, Option, none, some, List, [], ◌∷◌, ◌==◌,
  if◌then◌else◌, or_default,
}
use local_ai_rag.Text.{is_empty, strip, strip_opt}
use local_ai_rag.Dict.{Dict, get, put}
use local_ai_rag.Pipeline.Result.{Result, ok, err, value_error}
use local_ai_rag.History.Turn.{ConversationTurn, Answer}
use local_ai_rag.History.Sessions.{
  Sessions, Question, start_turn, finalize_turn, list_recent_finalized_turns, new_turn,
  limit_or_default,
}
use local_ai_rag.History.Durable.{
  Durable, upsert_session_link, insert_turn, upsert_turn_final,
  list_recent_finalized_turns_by_session,
}

pub record Service : Type 0 where
  pub sessions : Sessions
  pub durable : Option Durable
  pub session_to_identity : Dict String

abbrev pub with_durable : (Durable → Durable) → Service → Service
with_durable f svc = elim svc.durable [ none ↦ svc | some d ↦ record svc { durable = some (f d) } ]

abbrev pub is_conflict : String → Option String → Bool
is_conflict iid none = false
is_conflict iid (some existing) = not (is_empty existing) && not (existing == iid)

-- `_ensure_session_identity_link`
unfoldable pub ensure_link : String → String → Service → Result (Unit {0}) × Service
unfolding strip get put upsert_session_link
ensure_link session_id identity_id svc =
    let sid = strip session_id in
    let iid = strip identity_id in
    if is_empty sid || is_empty iid
    then (ok tt, svc)
    else if is_conflict iid (get sid svc.session_to_identity)
    then (err (value_error "session_id already linked to a different identity_id"), svc)
    else (
      ok tt,
      with_durable (upsert_session_link iid sid)
          (record svc { session_to_identity = put sid iid svc.session_to_identity }),
    )

-- `if iid:` around the link.
abbrev pub link : String → String → Service → Result (Unit {0}) × Service
link sid iid svc = if is_empty iid then (ok tt, svc) else ensure_link sid iid svc

abbrev pub identity_or_none : String → Option String
identity_or_none iid = if is_empty iid then none else some iid

-- What the session store answers goes to the durable store too, if the user is known.
abbrev pub store_started :
    String
    → String
    → String
    → Question
    → Result String × Sessions
    → Service
    → Result String × Service
store_started sid rid iid q (err e, sessions) svc = (err e, record svc { sessions = sessions })
store_started sid rid iid q (ok turn_id, sessions) svc =
    let stored = record svc { sessions = sessions } in
    (
      ok turn_id,
      (if is_empty iid
          then stored
          else with_durable (insert_turn (new_turn sid rid (record q { turn_id = turn_id })))
              stored),
    )

abbrev start_linked :
    ℕ → String → String → String → Question → Result (Unit {0}) × Service → Result String × Service
start_linked max_turns sid rid iid q (err e, svc) = (err e, svc)
start_linked max_turns sid rid iid q (ok u, svc) =
    store_started sid rid iid q (start_turn max_turns sid rid q svc.sessions) svc

abbrev pub id_or : String → String → String
id_or id fresh = if is_empty id then fresh else id

unfoldable pub on_request_started :
    ℕ → String → String → String → Option String → Question → Service → Result String × Service
unfolding strip strip_opt ensure_link start_turn insert_turn
on_request_started max_turns session_id request_id fresh identity_id q svc =
    let sid = strip session_id in
    let rid = id_or (strip request_id) fresh in
    let iid = strip_opt identity_id in
    if is_empty sid
    then (err (value_error "on_request_started: session_id is required"), svc)
    else start_linked max_turns sid rid iid (record q { identity_id = identity_or_none iid })
        (link sid iid svc)

abbrev pub keep_durable : Result (Unit {0}) × Durable → Service → Result (Unit {0}) × Service
keep_durable (r, d) svc = (r, record svc { durable = some d })

abbrev pub finalize_durable :
    String
    → String
    → String
    → String
    → Answer
    → Service
    → Option Durable
    → Result (Unit {0}) × Service
finalize_durable sid iid turn_id now answer svc none = (ok tt, svc)
finalize_durable sid iid turn_id now answer svc (some d) =
    if is_empty iid
    then (ok tt, svc)
    else keep_durable (upsert_turn_final iid sid turn_id now answer d) svc

abbrev pub store_finalized :
    String
    → String
    → String
    → String
    → Answer
    → Result (Unit {0}) × Sessions
    → Service
    → Result (Unit {0}) × Service
store_finalized sid iid turn_id now answer (err e, sessions) svc =
    (err e, record svc { sessions = sessions })
store_finalized sid iid turn_id now answer (ok u, sessions) svc =
    finalize_durable sid iid turn_id now answer (record svc { sessions = sessions }) svc.durable

abbrev pub finalize_linked :
    ℕ
    → String
    → String
    → String
    → Option String
    → String
    → Answer
    → Result (Unit {0}) × Service
    → Result (Unit {0}) × Service
finalize_linked max_turns sid rid iid turn_id now answer (err e, svc) = (err e, svc)
finalize_linked max_turns sid rid iid none now answer (ok u, svc) =
    (err (value_error "on_request_finalized: turn_id is required"), svc)
finalize_linked max_turns sid rid iid (some turn_id) now answer (ok u, svc) =
    if is_empty turn_id
    then (err (value_error "on_request_finalized: turn_id is required"), svc)
    else store_finalized sid iid turn_id now answer
        (finalize_turn max_turns sid rid turn_id now answer svc.sessions) svc

unfoldable pub on_request_finalized :
    ℕ
    → String
    → String
    → String
    → Option String
    → Option String
    → String
    → Answer
    → Service
    → Result (Unit {0}) × Service
unfolding strip strip_opt ensure_link finalize_turn upsert_turn_final
on_request_finalized max_turns session_id request_id fresh identity_id turn_id now answer svc =
    let sid = strip session_id in
    let rid = id_or (strip request_id) fresh in
    let iid = strip_opt identity_id in
    if is_empty sid
    then (err (value_error "on_request_finalized: session_id is required"), svc)
    else finalize_linked max_turns sid rid iid turn_id now answer (link sid iid svc)

-- The pairs whose question and answer are not blank.
unfoldable pub pairs_of : List ConversationTurn → List (String × String)
unfolding strip strip_opt
pairs_of [] = []
pairs_of (t ∷ ts) =
    let rest = pairs_of ts in
    let q = strip t.question_neutral in
    let a = strip_opt t.answer_neutral in if is_empty q || is_empty a then rest else (q, a) ∷ rest

abbrev or_durable : String → ℕ → Option Durable → List ConversationTurn → List ConversationTurn
or_durable sid limit (some d) [] = list_recent_finalized_turns_by_session sid limit d
or_durable sid limit o turns = turns

unfoldable pub get_recent_qa_neutral : String → ℕ → Service → List (String × String)
unfolding strip pairs_of list_recent_finalized_turns list_recent_finalized_turns_by_session
get_recent_qa_neutral session_id limit svc =
    let sid = strip session_id in
    let lim = limit_or_default limit in
    if is_empty sid
    then []
    else pairs_of
        (or_durable sid lim svc.durable (list_recent_finalized_turns sid lim svc.sessions))
