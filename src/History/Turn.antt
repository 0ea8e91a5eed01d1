-- ===== src/History/Turn.antt =====
-- conversation_history/types.py: one question and its final answer.
use local_ai_rag.Prelude.{String, Bool, Option, some, [], ◌∷◌}
use local_ai_rag.Dict.{Dict, put}
use local_ai_rag.Value.{Value}

pub record ConversationTurn : Type 0 where
  pub turn_id : String
  pub session_id : String
  pub request_id : String
  pub created_at_utc : String
  pub identity_id : Option String
  pub finalized_at_utc : Option String
  pub question_neutral : String
  pub answer_neutral : Option String
  pub question_translated : Option String
  pub answer_translated : Option String
  pub answer_translated_is_fallback : Option Bool
  pub metadata : Dict Value

-- `old.update(new)`
unfoldable pub update : Dict Value → Dict Value → Dict Value
unfolding put
update old [] = old
update old ((k, v) ∷ new) = update (put k v old) new

-- What the caller of `finalize_turn` hands in.
pub record Answer : Type 0 where
  pub neutral : String
  pub translated : Option String
  pub is_fallback : Option Bool
  pub meta : Dict Value

abbrev pub finalize : String → Answer → ConversationTurn → ConversationTurn
finalize now answer t = record t {
  finalized_at_utc = some now;
  answer_neutral = some answer.neutral;
  answer_translated = answer.translated;
  answer_translated_is_fallback = answer.is_fallback;
  metadata = update t.metadata answer.meta;
}
