-- ===== src/History/Durable.antt =====
-- conversation_history/durable_store_memory.py: `InMemoryUserConversationStore`. A set of session ids is a list
-- without repetitions.
use Prim.Native.Nat.{Ordering}
use Prim.Native.String.{compare}
use local_ai_rag.Prelude.{
  ℕ, String, Bool, true, false, ◌&&◌, ◌||◌, Option, none, some, List, [], ◌∷◌, ◌++◌, ◌==◌,
  if◌then◌else◌, last_n, keep_if, or_default, not,
}
use local_ai_rag.Text.{is_empty, strip, strip_opt}
use local_ai_rag.Dict.{Dict, get, put}
use local_ai_rag.Pipeline.Result.{Result, ok, err, value_error}
use local_ai_rag.Pipeline.Validator.Rules.{elem}
use local_ai_rag.History.Turn.{ConversationTurn, Answer, finalize}
use local_ai_rag.History.Sessions.{limit_or_default}

pub record Durable : Type 0 where
  pub sessions_by_identity : Dict (List String)
  pub turns_by_identity : Dict (List ConversationTurn)

abbrev include : String → List String → List String
include x xs = if elem x xs then xs else xs ++ x ∷ []

unfoldable pub upsert_session_link : String → String → Durable → Durable
unfolding strip elem get put
upsert_session_link identity_id session_id d =
    let iid = strip identity_id in
    let sid = strip session_id in
    let sessions = or_default (get iid d.sessions_by_identity) [] in
    if is_empty iid || is_empty sid
    then d
    else record d { sessions_by_identity = put iid (include sid sessions) d.sessions_by_identity }

unfoldable pub insert_turn : ConversationTurn → Durable → Durable
unfolding strip_opt get put
insert_turn turn d =
    let iid = strip_opt turn.identity_id in
    let turns = or_default (get iid d.turns_by_identity) [] in
    if is_empty iid
    then d
    else record d { turns_by_identity = put iid (turns ++ turn ∷ []) d.turns_by_identity }

abbrev is_turn_of : String → String → ConversationTurn → Bool
is_turn_of turn_id session_id t = t.turn_id == turn_id && t.session_id == session_id

-- The loop over the indices from the last to the first.
unfoldable pub finalize_last_of :
    String → String → String → Answer → List ConversationTurn → Option (List ConversationTurn)
finalize_last_of turn_id session_id now answer [] = none
finalize_last_of turn_id session_id now answer (t ∷ ts) =
    let rest = finalize_last_of turn_id session_id now answer ts in
    elim rest [
      | some ts' ↦ some (t ∷ ts')
      | none ↦ if is_turn_of turn_id session_id t then some (finalize now answer t ∷ ts) else none
    ]

abbrev pub set_turns :
    String
    → List ConversationTurn
    → Option (List ConversationTurn)
    → Durable
    → Result (Unit {0}) × Durable
set_turns iid turns none d = (
  err (value_error "upsert_turn_final: turn_id not found for session"),
  record d { turns_by_identity = put iid turns d.turns_by_identity },
)
set_turns iid turns (some turns') d =
    (ok tt, record d { turns_by_identity = put iid turns' d.turns_by_identity })

-- `setdefault` leaves an empty list behind even when the turn is not found.
unfoldable pub upsert_turn_final :
    String → String → String → String → Answer → Durable → Result (Unit {0}) × Durable
unfolding strip get put finalize_last_of
upsert_turn_final identity_id session_id turn_id now answer d =
    let iid = strip identity_id in
    let turns = or_default (get iid d.turns_by_identity) [] in
    if is_empty iid
    then (ok tt, d)
    else set_turns iid turns (finalize_last_of turn_id session_id now answer turns) d

unfoldable pub all_turns : Dict (List ConversationTurn) → List ConversationTurn
all_turns [] = []
all_turns ((iid, turns) ∷ d) = turns ++ all_turns d

abbrev or_blank : Option String → String
or_blank none = ""
or_blank (some s) = s

abbrev is_before : ConversationTurn → ConversationTurn → Bool
is_before t u = elim (compare (or_blank t.finalized_at_utc) (or_blank u.finalized_at_utc)) [
  | Ordering.lt ↦ true
  | _ ↦ false
]

-- The stable sort by the time of finalization, as an insertion sort.
insert_sorted : ConversationTurn → List ConversationTurn → List ConversationTurn
insert_sorted t [] = t ∷ []
insert_sorted t (u ∷ us) =
    let rest = insert_sorted t us in if is_before u t then u ∷ rest else t ∷ u ∷ us

unfoldable pub sort_turns : List ConversationTurn → List ConversationTurn
unfolding insert_sorted
sort_turns [] = []
sort_turns (t ∷ ts) = insert_sorted t (sort_turns ts)

unfoldable pub list_recent_finalized_turns_by_session : String → ℕ → Durable → List ConversationTurn
unfolding strip keep_if all_turns sort_turns last_n
list_recent_finalized_turns_by_session session_id limit d =
    let sid = strip session_id in
    let mine =
      keep_if
        (λ (t : ConversationTurn).
          t.session_id == sid && not (is_empty (or_blank t.finalized_at_utc)))
        (all_turns d.turns_by_identity) in
    if is_empty sid then [] else last_n (limit_or_default limit) (sort_turns mine)
