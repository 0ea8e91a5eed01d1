-- ===== src/Pipeline/Actions/ParallelRoads.antt =====
-- actions/parallel_roads.py: `fork_action` and `merge_action`, which run the steps between them once
-- for each snapshot of a plan. `parallel_roads` of the state is `none` where the source finds it
-- missing or empty.
pub mod Plans
pub mod Laws
use Prim.Native.String.{◌++◌ as append_text}
use local_ai_rag.Prelude.{
  ℕ, suc, String, Bool, true, false, not, ◌||◌, Option, none, some, List, [], ◌∷◌, ◌++◌,
  if◌then◌else◌, ◌==◌, length, get_elem?, ltb, map, or_default,
}
use local_ai_rag.Text.{is_empty, strip, strip_opt, contains_text, fill_braces}
use local_ai_rag.Dict.{Dict, get, put}
use local_ai_rag.Value.{
  Value, Builtins, null, text, object, end, field, truthy, lookup, str, str_or_empty, to_dict,
  value_or,
}
use local_ai_rag.Pipeline.Result.{Result, ok, err, value_error, ◌>>=◌, ◌>>◌, require}
use local_ai_rag.Pipeline.Definitions.{StepDef}
use local_ai_rag.Pipeline.State.{State, Roads}
use local_ai_rag.Pipeline.Inbox.{Action}

abbrev or_missing : String → String → Result String
or_missing sid message = if is_empty sid then err (value_error message) else ok sid

-- `_resolve_snapshot_ref`, of a text that is stripped already.
unfoldable pub resolve_snapshot_ref : String → State → Result String
unfolding strip_opt
resolve_snapshot_ref v s =
    if v == "${snapshot_id}" || v == "$snapshot_id" || v == "snapshot_id"
    then or_missing (strip_opt s.snapshot_id) "parallel_roads: snapshot_id is required"
    else if v == "${snapshot_id_b}" || v == "$snapshot_id_b" || v == "snapshot_id_b"
    then or_missing (strip_opt s.snapshot_id_b) "parallel_roads: snapshot_id_b is required"
    else ok v

abbrev pub clear_retrieval : State → State
clear_retrieval s = record s {
  retrieval_seed_nodes = [];
  graph_seed_nodes = [];
  graph_expanded_nodes = [];
  retrieval_hits = [];
  graph_edges = [];
  graph_debug = [];
  graph_node_texts = [];
  node_texts = [];
}

unfoldable pub display_snapshot_name : State → String → String → String
unfolding strip_opt get
display_snapshot_name s snapshot_id fallback =
    let label = strip_opt (get snapshot_id s.snapshot_friendly_names) in
    if is_empty label then fallback else label

-- The step once the snapshots and the search step are read: the road that is next, if any.
abbrev pub start_roads : StepDef → State → List (String × String) → String → Option Roads → Roads
start_roads step s snapshots search_step_id (some roads) = roads
start_roads step s snapshots search_step_id none = record {
  snapshots = snapshots;
  index = 0;
  search_step_id = search_step_id;
  fork_step_id = step.id;
  original_snapshot_id = s.snapshot_id;
  original_snapshot_id_b = s.snapshot_id_b;
  results = [];
  current = none;
}

abbrev pub take_road :
    Value → String → State → Roads → Option (String × String) → Result Value × State
take_road on_done search_step_id s roads none =
    (ok on_done, record s { parallel_roads = some roads })
take_road on_done search_step_id s roads (some (name, snapshot_id)) = (
  ok (text search_step_id),
  record s {
    snapshot_id = some snapshot_id;
    parallel_roads = some (record roads { current = some (name, snapshot_id) });
  },
)

unfoldable pub fork_road : List (String × String) → String → Action
unfolding lookup
fork_road snapshots search_step_id step s =
    let roads = start_roads step s snapshots search_step_id s.parallel_roads in
    take_road (lookup "on_done" step.raw) search_step_id s roads
      (get_elem? roads.snapshots roads.index)

-- The texts that the merged roads left, in the plan's order.
unfoldable pub combine : Dict (List String) → List (String × String) → List String
unfolding get
combine results [] = []
combine results ((name, snapshot_id) ∷ plan) =
    or_default (get name results) [] ++ combine results plan

-- What `merge_action` does with the blocks of the road just finished.
unfoldable pub close_road : Value → List String → String → State → Roads → Result Value × State
unfolding combine put strip
close_road on_done blocks name s roads =
    let results = put name blocks roads.results in
    let merged : Roads = record roads { results = results; index = suc roads.index } in
    let cleared : State = record (clear_retrieval s) { parallel_roads = some merged } in
    let combined = combine results roads.snapshots in
    let fork_step_id = strip roads.fork_step_id in
    if ltb (suc roads.index) (length roads.snapshots)
    then (if is_empty fork_step_id
        then (
          err (value_error "merge_action: fork_step_id missing in parallel_roads state"),
          cleared,
        )
        else (ok (text fork_step_id), cleared))
    else (
      ok on_done,
      record cleared {
        context_blocks = s.context_blocks ++ combined;
        snapshot_id = roads.original_snapshot_id;
        snapshot_id_b = roads.original_snapshot_id_b;
      },
    )

module _ ⦃py : Builtins⦄ where
  unfoldable pub normalize_items : Dict Value → State → Result (List (String × String))
  unfolding resolve_snapshot_ref str_or_empty strip
  normalize_items [] s = ok []
  normalize_items ((k, v) ∷ items) s =
      let rest = normalize_items items s in
      do
        let name = strip k
        sid ← resolve_snapshot_ref (str_or_empty v) s
        require (not (is_empty name || is_empty sid))
            "snapshot keys and values must be non-empty strings"
        plan ← rest
        ok ((name, sid) ∷ plan)

  abbrev pub normalize_snapshots : Value → State → Result (List (String × String))
  normalize_snapshots (object (field k v fs)) s = normalize_items (to_dict (field k v fs)) s
  normalize_snapshots v s =
      err (value_error "parallel_roads: snapshots must be a non-empty mapping")

  abbrev pub fork_with : Result (List (String × String)) → String → Action
  fork_with (err e) search_step_id step s = (err e, s)
  fork_with (ok snapshots) search_step_id step s =
      if is_empty search_step_id
      then (err (value_error "fork_action: search_action is required (step id of search_nodes)"), s)
      else fork_road snapshots search_step_id step s

  unfoldable pub fork_action : Action
  unfolding normalize_items fork_road str_or_empty lookup
  fork_action step s =
      fork_with (normalize_snapshots (lookup "snapshots" step.raw) s)
        (str_or_empty (lookup "search_action" step.raw)) step s

  -- `_render_label`, of a template that is stripped already.
  unfoldable pub render_label : String → String → String
  unfolding contains_text fill_braces
  render_label t name =
      let spaced = append_text t (append_text " " name) in
      if is_empty t
      then name
      else if contains_text "{}" t
      then fill_braces name t
      else if contains_text "{name}" t
      then or_default (py.format_name t name) spaced
      else spaced

  unfoldable pub node_block : Dict Value → String
  unfolding truthy str str_or_empty lookup
  node_block node =
      let node_id = str_or_empty (value_or (lookup "node_id" node) (lookup "id" node)) in
      let path = str_or_empty (
        value_or (lookup "path" node) (
          value_or (lookup "repo_relative_path" node)
            (value_or (lookup "source_file" node) (lookup "source" node)))) in
      let body = lookup "text" node in
      append_text "--- NODE ---\nid: " (
        append_text node_id (
          append_text "\npath: " (
            append_text path
              (append_text "\ntext:\n" (append_text (if truthy body then str body else "") "\n")))))

  abbrev pub merge_road :
      Value → Dict Value → State → Roads → Option (String × String) → Result Value × State
  merge_road on_done labels s roads none = (ok on_done, s)
  merge_road on_done labels s roads (some (name, snapshot_id)) =
      let label =
        render_label (str_or_empty (lookup name labels))
          (display_snapshot_name s snapshot_id name) in
      close_road on_done (label ∷ map node_block s.node_texts) name s roads

  abbrev pub merge_with : StepDef → Value → State → Option Roads → Result Value × State
  merge_with step labels s none =
      (err (value_error "merge_action: missing parallel_roads state"), s)
  merge_with step (object (field k v fs)) s (some roads) =
      merge_road (lookup "on_done" step.raw) (to_dict (field k v fs)) s roads
        (get_elem? roads.snapshots roads.index)
  merge_with step labels s (some roads) =
      (err (value_error "merge_action: snapshots mapping is required"), s)

  unfoldable pub merge_action : Action
  unfolding close_road node_block render_label display_snapshot_name str_or_empty lookup
  merge_action step s = merge_with step (lookup "snapshots" step.raw) s s.parallel_roads
