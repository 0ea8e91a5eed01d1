-- ===== src/Tests/Actions.antt =====
-- The loop guard, the prefix router and the parallel roads.
use local_ai_rag.Prelude.{
  Option, String, true, none, some, List, [], ◌∷◌, ◌≡◌, refl, ltb, if◌then◌else◌,
}
use local_ai_rag.Prelude.Int.{pos, ◌+ℤ◌}
use local_ai_rag.Text.{strip, strip_opt}
use local_ai_rag.Dict.{Dict, get, put}
use local_ai_rag.Value.{text, num, object, field, end, lookup, truthy, str_or_empty}
use local_ai_rag.Pipeline.Result.{ok}
use local_ai_rag.Pipeline.Definitions.{StepDef}
use local_ai_rag.Pipeline.State.{State}
use local_ai_rag.Pipeline.Actions.LoopGuard.{guard_turn, visits, loop_guard-visits}
use local_ai_rag.Pipeline.Actions.PrefixRouter.{match_prefix, prefix_router}
use local_ai_rag.Pipeline.Actions.PrefixRouter.Laws.{
  Matched, match_prefix-Matched, prefix_router-truthy,
}
use local_ai_rag.Pipeline.Actions.ParallelRoads.{normalize_items, normalize_snapshots}
use local_ai_rag.Pipeline.Actions.ParallelRoads.Laws.{LeavesRoads, passes, roads_visited}
use local_ai_rag.Pipeline.Actions.RepeatQueryGuard.{repeat_query_guard, parse_payload}
use local_ai_rag.Pipeline.Actions.RepeatQueryGuard.Laws.{Decided, repeat_query_guard-Decided}
use local_ai_rag.Tests.Fixtures.{plain, asked}

abbrev guard_step : StepDef
guard_step = record {
  id = "guard";
  action = "loop_guard";
  raw = ("max_turns", num (pos 2)) ∷ ("on_allow", text "ask") ∷ ("on_deny", text "done") ∷ [];
}

abbrev visited : State → State
visited s = (guard_turn (pos 2) guard_step s).1

abbrev third : State
third = visited (visited asked)

-- The third visit of a guard of two turns is denied.
third_test : (guard_turn (pos 2) guard_step third).0 ≡ ok (text "done")
unfolding guard_turn lookup get put ◌+ℤ◌
third_test = refl

get_test : get (strip guard_step.id) asked.loop_counters ≡ none
unfolding get
get_test = refl

loop_guard-visits_example :
    (guard_turn (pos 2) guard_step (visits (pos 2) guard_step 3 asked)).0
    ≡ ok (if ltb 3 2 then lookup "on_allow" guard_step.raw else lookup "on_deny" guard_step.raw)
unfolding strip
loop_guard-visits_example = loop_guard-visits 2 3 guard_step asked refl get_test

abbrev prefixes : Dict String
prefixes = ("direct", "[DIRECT:]") ∷ ("search", "[SEARCH:]") ∷ []

match_test : match_prefix "[SEARCH:] where" prefixes ≡ (some "search", "where")
unfolding match_prefix
match_test = refl

match_prefix-Matched_example :
    Matched "[SEARCH:] where" prefixes (match_prefix "[SEARCH:] where" prefixes)
unfolding strip
match_prefix-Matched_example = match_prefix-Matched "[SEARCH:] where" prefixes

abbrev router_step : StepDef
router_step = record {
  id = "route";
  action = "prefix_router";
  raw =
      (
        "routes",
        object (
            field "search"
              (object (field "prefix" (text "[SEARCH:]") (field "next" (text "find") end))) end),
      )
      ∷ ("on_other", text "done")
      ∷ [];
}

abbrev answered : State
answered = record asked { last_model_response = some "[SEARCH:] where" }

abbrev routed : State
routed = record asked { last_model_response = some "where"; last_prefix = some "search" }

router_test : prefix_router router_step answered ≡ (ok (text "find"), routed)
unfolding prefix_router
router_test = refl

prefix_router-truthy_example : truthy (text "find") ≡ true
prefix_router-truthy_example =
    prefix_router-truthy router_step (text "find") answered routed router_test

abbrev plan : List (String × String)
plan = ("old", "s1") ∷ ("new", "s2") ∷ []

abbrev fork_step : StepDef
fork_step = record {
  id = "fork";
  action = "fork_action";
  raw =
      ("snapshots", object (field "old" (text "${snapshot_id}") (field "new" (text "s2") end)))
      ∷ ("search_action", text "search")
      ∷ [];
}

abbrev on_snapshot : State
on_snapshot = record asked { snapshot_id = some "s1" }

plan_test : normalize_snapshots (lookup "snapshots" fork_step.raw) on_snapshot ≡ ok plan
unfolding normalize_items lookup get
plan_test = refl

abbrev merge_step : StepDef
merge_step = record {
  id = "merge";
  action = "merge_action";
  raw = ("snapshots", object (field "old" (text "Old") (field "new" (text "New") end))) ∷ [];
}

nothing_between : State → State
nothing_between s = record s { answer_neutral = some "hi" }

nothing_between-LeavesRoads : LeavesRoads nothing_between
unfolding nothing_between
nothing_between-LeavesRoads = record { roads = λ s. refl; own = λ s. refl; own_b = λ s. refl }

labels_test :
    lookup "snapshots" merge_step.raw
    ≡ object (field "old" (text "Old") (field "new" (text "New") end))
unfolding lookup get
labels_test = refl

roads_visited_example :
    ((passes nothing_between fork_step merge_step 2 on_snapshot).0
      ≡ ok (some "s1" ∷ some "s2" ∷ []))
    × ((passes nothing_between fork_step merge_step 2 on_snapshot).1.snapshot_id
        ≡ on_snapshot.snapshot_id)
    × ((passes nothing_between fork_step merge_step 2 on_snapshot).1.snapshot_id_b
        ≡ on_snapshot.snapshot_id_b)
unfolding str_or_empty lookup get strip
roads_visited_example =
    roads_visited nothing_between fork_step merge_step plan on_snapshot "old" (text "Old")
      (field "new" (text "New") end) nothing_between-LeavesRoads plan_test refl refl labels_test
      refl (cc)

abbrev query_step : StepDef
query_step = record {
  id = "check";
  action = "repeat_query_guard";
  raw = ("on_ok", text "find") ∷ ("on_repeat", text "done") ∷ [];
}

abbrev no_parsers : String → Option (String → String)
no_parsers name = none

abbrev asking : State
asking = record asked {
  last_model_response = some " where  is it ";
  retrieval_queries_asked_norm = "who is it" ∷ [];
  sufficiency_search_mode_constraint = "old";
}

abbrev passed : State
passed = record asking { sufficiency_search_mode_constraint = "" }

guard_test : repeat_query_guard no_parsers query_step asking ≡ (ok (text "find"), passed)
unfolding repeat_query_guard
guard_test = refl

-- The same query in another layout is sent back.
repeated_test :
    (repeat_query_guard no_parsers query_step
      (record asking { retrieval_queries_asked_norm = "where is it" ∷ [] })).0
    ≡ ok (text "done")
unfolding repeat_query_guard
repeated_test = refl

repeat_query_guard-Decided_example :
    Decided "find" "done" "where  is it" asking (repeat_query_guard no_parsers query_step asking)
unfolding parse_payload strip str_or_empty lookup strip_opt
repeat_query_guard-Decided_example =
    repeat_query_guard-Decided no_parsers query_step asking "where  is it" refl refl refl
