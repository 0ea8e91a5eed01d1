-- ===== src/History/Sessions/Laws.antt =====
-- A request starts one turn, sessions stay within their cap, and a finalized turn is the one that is listed.
use local_ai_rag.Prelude.{
  ℕ, ◌≤◌, String, true, false, ◌||◌, Option, none, some, List, [], ◌∷◌, ◌++◌, ◌≡◌, refl, ap, sym,
  subst, ◌∙◌, eq_refl, inl, inr, Bool-cases, All, length, length-last_n-le, last_n, or_default,
}
use local_ai_rag.Text.{is_empty, strip}
use local_ai_rag.Dict.{get, get-put, All-values-put}
use local_ai_rag.Pipeline.Result.{Result, ok}
use local_ai_rag.History.Turn.{ConversationTurn, Answer}
use local_ai_rag.History.Sessions.{
  Sessions, SessionData, Question, load, save, key, start_turn, start_in, finalize_turn,
  finalize_last, finalize_in, new_turn, add_turn,
}

pub load-save :
    (sid : String) (saved : SessionData) (store : Sessions)
    → load sid (save sid saved store) ≡ saved
unfolding load save
load-save sid saved store = rw (get-put (key sid) (key sid) saved store, eq_refl (key sid)) refl

-- The new turn's id is known by its request.
added-by_request :
    (m : ℕ) (sid rid : String) (q : Question) (saved : SessionData)
    → or_default (get rid (add_turn m sid rid q saved).by_request) "" ≡ q.turn_id
added-by_request m sid rid q saved =
    rw (get-put rid rid q.turn_id saved.by_request, eq_refl rid) refl

-- The turn id that a request is known by, or the empty text.
abbrev pub existing : String → String → Sessions → String
existing sid rid store = or_default (get rid (load sid store).by_request) ""

start_in-known :
    (m : ℕ) (sid rid : String) (q : Question) (store : Sessions) (t : String)
    → existing sid rid store ≡ t
    → is_empty (strip t) ≡ false
    → start_in m sid rid q store ≡ (ok t, store)
start_in-known m sid rid q store t e h = rw (e, h) refl

pub start_in-new :
    (m : ℕ) (sid rid : String) (q : Question) (store : Sessions)
    → is_empty (strip (existing sid rid store)) ≡ true
    → start_in m sid rid q store
      ≡ (ok q.turn_id, save sid (add_turn m sid rid q (load sid store)) store)
start_in-new m sid rid q store h = rw h refl

start_in-again :
    (m : ℕ) (sid rid : String) (q q' : Question) (store : Sessions) (t : String)
    → is_empty (strip q.turn_id) ≡ false
    → (start_in m sid rid q store).0 ≡ ok t
    → start_in m sid rid q' (start_in m sid rid q store).1 ≡ (ok t, (start_in m sid rid q store).1)
start_in-again m sid rid q q' store t made h =
    let Again : Result String × Sessions → Type 0 = λ r. start_in m sid rid q' r.1 ≡ r in
    let again : Again (start_in m sid rid q store) =
      elim (Bool-cases (is_empty (strip (existing sid rid store)))) [
        | inl absent ↦
            let after = add_turn m sid rid q (load sid store) in
            let e : existing sid rid (save sid after store) ≡ q.turn_id =
              ap (λ d. or_default (get rid d.by_request) "") (load-save sid after store)
              ∙ added-by_request m sid rid q (load sid store) in
            subst Again (sym (start_in-new m sid rid q store absent))
              (start_in-known m sid rid q' (save sid after store) q.turn_id e made)
        | inr known ↦
            subst Again (sym (start_in-known m sid rid q store (existing sid rid store) refl known))
              (start_in-known m sid rid q' store (existing sid rid store) refl known)
      ] in
    again ∙ ap (λ x. (x, (start_in m sid rid q store).1)) h

-- Starting a turn again for the same request of the same session answers with the same turn id, whatever else
-- the second call says, and changes nothing; the id that was made for the first call is not blank.
pub start_turn-again :
    (m : ℕ) (session_id request_id : String) (q q' : Question) (store : Sessions) (t : String)
    → is_empty (strip q.turn_id) ≡ false
    → (start_turn m session_id request_id q store).0 ≡ ok t
    → start_turn m session_id request_id q' (start_turn m session_id request_id q store).1
      ≡ (ok t, (start_turn m session_id request_id q store).1)
unfolding start_turn
start_turn-again m session_id request_id q q' store t made h =
    elim (Bool-cases (is_empty (strip session_id))) [
      | inl no_session ↦ cc (rw no_session at h)
      | inr session ↦ elim (Bool-cases (is_empty (strip request_id))) [
        | inl no_request ↦ cc (rw (session, no_request) at h)
        | inr request ↦
            rw (session, request)
              (start_in-again m (strip session_id) (strip request_id) q q' store t made
                (rw (session, request) at h))
      ]
    ]

-- No session has more turns than the cap.
unfoldable pub IsCapped : ℕ → Sessions → Type 0
IsCapped m store = All (λ e. length e.1.turns ≤ m) store

save-IsCapped :
    (m : ℕ) (sid : String) (saved : SessionData) (store : Sessions)
    → length saved.turns ≤ m
    → IsCapped m store
    → IsCapped m (save sid saved store)
unfolding IsCapped save
save-IsCapped m sid saved store h c =
    All-values-put (λ (d : SessionData). length d.turns ≤ m) (key sid) saved store h c

start_in-IsCapped :
    (m : ℕ) (sid rid : String) (q : Question) (store : Sessions)
    → IsCapped m store
    → IsCapped m (start_in m sid rid q store).1
start_in-IsCapped m sid rid q store c =
    elim (Bool-cases (is_empty (strip (existing sid rid store)))) [
      | inl absent ↦
          subst (λ (r : Result String × Sessions). IsCapped m r.1)
            (sym (start_in-new m sid rid q store absent))
            (save-IsCapped m sid (add_turn m sid rid q (load sid store)) store
              (length-last_n-le m ((load sid store).turns ++ new_turn sid rid q ∷ [])) c)
      | inr known ↦
          subst (λ (r : Result String × Sessions). IsCapped m r.1)
            (sym (start_in-known m sid rid q store (existing sid rid store) refl known)) c
    ]

finalize_in-IsCapped :
    (m : ℕ) (sid : String) (saved : SessionData) (turns : Option (List ConversationTurn))
    (store : Sessions)
    → IsCapped m store
    → IsCapped m (finalize_in m sid saved turns store).1
finalize_in-IsCapped m sid saved none store c = c
finalize_in-IsCapped m sid saved (some turns) store c =
    save-IsCapped m sid (record saved { turns = last_n m turns }) store (length-last_n-le m turns) c

-- Both writing operations keep the cap on the turns of every session, on every branch.
pub writes-IsCapped :
    (m : ℕ) (session_id request_id turn_id now : String) (q : Question) (answer : Answer)
    (store : Sessions)
    → IsCapped m store
    → IsCapped m (start_turn m session_id request_id q store).1
      × IsCapped m (finalize_turn m session_id request_id turn_id now answer store).1
unfolding start_turn finalize_turn
writes-IsCapped m session_id request_id turn_id now q answer store c =
    let sid = strip session_id in
    let started : IsCapped m (start_turn m session_id request_id q store).1 =
      elim (Bool-cases (is_empty sid)) [
        | inl no_session ↦ rw no_session c
        | inr session ↦ elim (Bool-cases (is_empty (strip request_id))) [
          | inl no_request ↦ rw (session, no_request) c
          | inr request ↦
              rw (session, request) (start_in-IsCapped m sid (strip request_id) q store c)
        ]
      ] in
    let missing = is_empty sid || is_empty (strip request_id) || is_empty (strip turn_id) in
    let found = finalize_last (strip turn_id) now answer (load sid store).turns in
    let finalized : IsCapped m (finalize_turn m session_id request_id turn_id now answer store).1 =
      elim (Bool-cases missing) [
        | inl blank ↦ rw blank c
        | inr given ↦ rw given (finalize_in-IsCapped m sid (load sid store) found store c)
      ] in
    (started, finalized)
