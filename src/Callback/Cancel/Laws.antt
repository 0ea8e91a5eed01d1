-- ===== src/Callback/Cancel/Laws.antt =====
-- What the engine's check sees of the cancellation registry.
use local_ai_rag.Prelude.{
  ℕ, ◌≤◌, ◌+◌, String, true, false, none, some, ◌≡◌, refl, arith, ◌==◌, eq_refl, Bool-cases, inl,
  inr, ◌∙◌,
}
use local_ai_rag.Text.{is_empty, strip}
use local_ai_rag.Dict.{get, put, remove, get-put, get-remove, get-drop_if, drop_if-absent}
use local_ai_rag.Callback.Cancel.{
  CancelRegistry, CancelRecord, cleanup, request_cancel, is_cancelled, get_reason, clear,
  cancel_ttl, reason_or_cancelled, is_expired,
}

-- A run that is cancelled is seen as cancelled, with the reason given, when the cleanup's clock reading is at most
-- twenty minutes after the record's; "cancelled" stands for an empty reason.
pub request_cancel-is_cancelled :
    (ts now : ℕ) (run_id reason : String) (items : CancelRegistry)
    → is_empty (strip run_id) ≡ false
    → now ≤ ts + cancel_ttl
    → (let after = request_cancel ts now run_id reason items in
        (is_cancelled run_id after ≡ true)
        × (get_reason run_id after ≡ some (reason_or_cancelled reason)))
unfolding request_cancel is_cancelled get_reason cleanup
request_cancel-is_cancelled ts now run_id reason items named h =
    let rid = strip run_id in
    let rec : CancelRecord = record { ts = ts; reason = reason_or_cancelled reason } in
    let there : get rid (put rid rec items) ≡ some rec =
      get-put rid rid rec items ∙ rw (eq_refl rid) refl in
    let young : is_expired now rec ≡ false = ground arith in
    let kept = get-drop_if (is_expired now) rid rec (put rid rec items) there young in
    rw (named, kept) (refl, refl)

-- A run that is cleared is no longer cancelled, and has no reason.
pub clear-is_cancelled :
    (now : ℕ) (run_id : String) (items : CancelRegistry)
    → (is_cancelled run_id (clear now run_id items) ≡ false)
      × (get_reason run_id (clear now run_id items) ≡ none)
unfolding clear is_cancelled get_reason cleanup
clear-is_cancelled now run_id items = elim (Bool-cases (is_empty (strip run_id))) [
  | inl empty ↦ rw empty (refl, refl)
  | inr named ↦
      let rid = strip run_id in
      let gone : get rid (remove rid items) ≡ none =
        get-remove rid rid items ∙ rw (eq_refl rid) refl in
      let absent = drop_if-absent (is_expired now) rid (remove rid items) gone in
      rw (named, absent) (refl, refl)
]

-- A cancelled run stays cancelled, with its reason, while another run is cancelled or cleared, as long
-- as its record is at most twenty minutes old.
pub others_keep-get_reason :
    (ts now : ℕ) (run_id other reason : String) (rec : CancelRecord) (items : CancelRegistry)
    → (strip other == strip run_id) ≡ false
    → get (strip run_id) items ≡ some rec
    → now ≤ rec.ts + cancel_ttl
    → (get (strip run_id) (request_cancel ts now other reason items) ≡ some rec)
      × (get (strip run_id) (clear now other items) ≡ some rec)
unfolding request_cancel clear cleanup
others_keep-get_reason ts now run_id other reason rec items ne there h =
    let rid = strip run_id in
    let new : CancelRecord = record { ts = ts; reason = reason_or_cancelled reason } in
    let young : is_expired now rec ≡ false = ground arith in
    let added = get-put (strip other) rid new items ∙ rw ne there in
    let removed = get-remove (strip other) rid items ∙ rw ne there in
    elim (Bool-cases (is_empty (strip other))) [
      | inl empty ↦ rw empty (there, there)
      | inr named ↦ rw named (
        get-drop_if (is_expired now) rid rec (put (strip other) new items) added young,
        get-drop_if (is_expired now) rid rec (remove (strip other) items) removed young,
      )
    ]
