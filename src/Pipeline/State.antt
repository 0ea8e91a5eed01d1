-- ===== src/Pipeline/State.antt =====
-- `PipelineState` of state.py: the fields that the modelled code reads or writes, with those that
-- the engine and the actions attach to the object while it runs.
use local_ai_rag.Prelude.{ℕ, String, Bool, false, Option, none, some, List, [], if◌then◌else◌}
use local_ai_rag.Text.{is_empty}
use local_ai_rag.Dict.{Dict}
use local_ai_rag.Prelude.Int.{ℤ}
use local_ai_rag.Value.{Value}

pub record Message : Type 0 where
  pub target_step_id : String
  pub topic : String
  pub payload : Option (Dict Value)

-- `state.parallel_roads` once `fork_action` has filled it.
pub record Roads : Type 0 where
  pub snapshots : List (String × String)
  pub index : ℕ
  pub search_step_id : String
  pub fork_step_id : String
  pub original_snapshot_id : Option String
  pub original_snapshot_id_b : Option String
  pub results : Dict (List String)
  pub current : Option (String × String)

pub record State : Type 0 where
  pub user_query : String
  pub pipeline_name : String
  pub pipeline_run_id : Option String
  pub translate_chat : Bool
  pub snapshot_id : Option String
  pub snapshot_id_b : Option String
  pub snapshot_friendly_names : Dict String
  pub query_type : Option String
  pub retrieval_queries_asked_norm : List String
  pub last_search_type : Option String
  pub sufficiency_search_mode_constraint : String
  pub retrieval_seed_nodes : List String
  pub graph_seed_nodes : List String
  pub graph_expanded_nodes : List String
  pub retrieval_hits : List (Dict Value)
  pub graph_edges : List (Dict Value)
  pub graph_debug : Dict Value
  pub graph_node_texts : List (Dict Value)
  pub node_texts : List (Dict Value)
  pub context_blocks : List String
  pub last_model_response : Option String
  pub last_prefix : Option String
  pub answer_neutral : Option String
  pub answer_translated : Option String
  pub user_question_neutral : Option String
  pub final_answer : Option String
  pub model_input_en : Option String
  pub step_trace : List String
  pub steps_used : ℕ
  pub loop_counters : Dict ℤ
  pub inbox : List Message
  pub inbox_last_consumed : List Message
  pub parallel_roads : Option Roads
  pub cancel_event_emitted : Bool
  pub allowed_commands : List String
  pub commands_applied : List String

-- `a or b` at optional texts
unfoldable pub or_else : Option String → String → String
or_else none d = d
or_else (some s) d = if is_empty s then d else s

-- `model_input_en_or_fallback`
unfoldable pub model_input_en_or_fallback : State → String
unfolding or_else
model_input_en_or_fallback s =
    or_else s.model_input_en (or_else s.user_question_neutral s.user_query)

-- A new state for a query, as the dataclass's defaults fill it.
abbrev pub new_state : String → State
new_state query = record {
  user_query = query;
  pipeline_name = "";
  pipeline_run_id = none;
  translate_chat = false;
  snapshot_id = none;
  snapshot_id_b = none;
  snapshot_friendly_names = [];
  query_type = none;
  retrieval_queries_asked_norm = [];
  last_search_type = none;
  sufficiency_search_mode_constraint = "";
  retrieval_seed_nodes = [];
  graph_seed_nodes = [];
  graph_expanded_nodes = [];
  retrieval_hits = [];
  graph_edges = [];
  graph_debug = [];
  graph_node_texts = [];
  node_texts = [];
  context_blocks = [];
  last_model_response = none;
  last_prefix = none;
  answer_neutral = none;
  answer_translated = none;
  user_question_neutral = none;
  final_answer = none;
  model_input_en = none;
  step_trace = [];
  steps_used = 0;
  loop_counters = [];
  inbox = [];
  inbox_last_consumed = [];
  parallel_roads = none;
  cancel_event_emitted = false;
  allowed_commands = [];
  commands_applied = [];
}
