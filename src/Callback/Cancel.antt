-- ===== src/Callback/Cancel.antt =====
-- pipeline/cancellation.py: `PipelineCancelRegistry`, and the cancel endpoint's
-- work on the registry and the broker (work_callback/cancel_controller.py). Times are in milliseconds.
pub mod Laws
pub mod Runs
use local_ai_rag.Prelude.{
  ℕ, ◌-◌, String, Bool, true, false, not, ◌&&◌, Option, none, some, List, [], ◌∷◌, if◌then◌else◌,
  ltb, is_some,
}
use local_ai_rag.Text.{is_empty, strip}
use local_ai_rag.Dict.{Dict, get, put, remove, drop_if, contains}
use local_ai_rag.Callback.Broker.{Broker, close}

-- Twenty minutes, in milliseconds.
abbrev pub cancel_ttl : ℕ
cancel_ttl = 1200000

pub record CancelRecord : Type 0 where
  pub ts : ℕ
  pub reason : String

abbrev pub CancelRegistry : Type 0
CancelRegistry = Dict CancelRecord

abbrev pub is_expired : ℕ → CancelRecord → Bool
is_expired now rec = ltb cancel_ttl (now - rec.ts)

-- `_cleanup_locked`
unfoldable pub cleanup : ℕ → CancelRegistry → CancelRegistry
unfolding drop_if
cleanup now items = drop_if (is_expired now) items

abbrev pub reason_or_cancelled : String → String
reason_or_cancelled reason = if is_empty reason then "cancelled" else reason

-- The clock is read for the record, and once more for the cleanup.
unfoldable pub request_cancel : ℕ → ℕ → String → String → CancelRegistry → CancelRegistry
unfolding cleanup strip put
request_cancel ts now run_id reason items =
    let rid = strip run_id in
    if is_empty rid
    then items
    else cleanup now (put rid (record { ts = ts; reason = reason_or_cancelled reason }) items)

unfoldable pub is_cancelled : String → CancelRegistry → Bool
unfolding strip get
is_cancelled run_id items =
    let rid = strip run_id in if is_empty rid then false else contains rid items

abbrev record_reason : Option CancelRecord → Option String
record_reason none = none
record_reason (some rec) = some rec.reason

unfoldable pub get_reason : String → CancelRegistry → Option String
unfolding strip get
get_reason run_id items =
    let rid = strip run_id in if is_empty rid then none else record_reason (get rid items)

unfoldable pub clear : ℕ → String → CancelRegistry → CancelRegistry
unfolding cleanup strip remove
clear now run_id items =
    let rid = strip run_id in if is_empty rid then items else cleanup now (remove rid items)

-- `_handle_cancel_request` once the caller is let in and has named a run: the registry first, then the broker.
unfoldable pub cancel_run : ℕ → ℕ → String → CancelRegistry × Broker → CancelRegistry × Broker
unfolding request_cancel close
cancel_run ts now run_id (items, broker) =
    (request_cancel ts now run_id "client_cancel" items, close ts run_id "cancelled" broker)
