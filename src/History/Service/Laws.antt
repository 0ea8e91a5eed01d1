-- ===== src/History/Service/Laws.antt =====
-- A session belongs to one user.
use local_ai_rag.Prelude.{
  ℕ, String, false, ◌||◌, Option, none, some, ◌==◌, ◌≡◌, refl, ap, sym, subst, ◌∙◌, arith, eq_iff,
  Bool-cases, Option-cases, inl, inr,
}
use local_ai_rag.Text.{is_empty, strip, strip_opt, strip_idem}
use local_ai_rag.Dict.{get, put, get-put}
use local_ai_rag.Pipeline.Result.{Result, ok, err, value_error}
use local_ai_rag.History.Turn.{Answer}
use local_ai_rag.History.Sessions.{Sessions, Question, start_turn, finalize_turn, new_turn}
use local_ai_rag.History.Durable.{Durable, upsert_session_link, insert_turn}
use local_ai_rag.History.Service.{
  Service, with_durable, is_conflict, ensure_link, link, id_or, identity_or_none, store_started,
  start_linked, on_request_started, finalize_durable, store_finalized, finalize_linked,
  on_request_finalized,
}

with_durable-links :
    (f : Durable → Durable) (svc : Service)
    → (with_durable f svc).session_to_identity ≡ svc.session_to_identity
with_durable-links f svc = elim (Option-cases svc.durable) [
  | inl without ↦ rw without refl
  | inr (d, there) ↦ rw there refl
]

module _ (k i : String) (named : is_empty i ≡ false) where
  -- The session `k` is linked to the identity `i`.
  abbrev pub Linked : Service → Type 0
  Linked svc = get k svc.session_to_identity ≡ some i

  no_conflict : (iid : String) → is_conflict iid (some i) ≡ false → i ≡ iid
  no_conflict iid h = (eq_iff i iid).0 (ground arith)

  relinked :
      (sid iid : String) (svc : Service)
      → Linked svc
      → is_conflict iid (get sid svc.session_to_identity) ≡ false
      → get k (put sid iid svc.session_to_identity) ≡ some i
  relinked sid iid svc l free = elim (Bool-cases (sid == k)) [
    | inl same ↦
        let here : get sid svc.session_to_identity ≡ some i =
          subst (λ x. get x svc.session_to_identity ≡ some i) (sym ((eq_iff sid k).0 same)) l in
        let e = no_conflict iid (rw here at free) in
        get-put sid k iid svc.session_to_identity ∙ rw (same, e) refl
    | inr other ↦ get-put sid k iid svc.session_to_identity ∙ rw other l
  ]

  ensure_link-Linked :
      (session_id identity_id : String) (svc : Service)
      → Linked svc
      → Linked (ensure_link session_id identity_id svc).1
  unfolding ensure_link
  ensure_link-Linked session_id identity_id svc l =
      let sid = strip session_id in
      let iid = strip identity_id in
      elim (Bool-cases (is_empty sid || is_empty iid)) [
        | inl blank ↦ rw blank l
        | inr given ↦ elim (Bool-cases (is_conflict iid (get sid svc.session_to_identity))) [
          | inl conflict ↦ rw (given, conflict) l
          | inr free ↦
              let svc' : Service = record svc {
                session_to_identity = put sid iid svc.session_to_identity;
              } in
              rw (given, free)
                (ap (get k) (with_durable-links (upsert_session_link iid sid) svc')
                  ∙ relinked sid iid svc l free)
        ]
      ]

  link-Linked : (sid iid : String) (svc : Service) → Linked svc → Linked (link sid iid svc).1
  link-Linked sid iid svc l = elim (Bool-cases (is_empty iid)) [
    | inl anonymous ↦ rw anonymous l
    | inr known ↦ rw known (ensure_link-Linked sid iid svc l)
  ]

  start_linked-Linked :
      (m : ℕ) (sid rid iid : String) (q : Question) (r : Result (Unit {0}) × Service)
      → Linked r.1
      → Linked (start_linked m sid rid iid q r).1
  start_linked-Linked m sid rid iid q (err e, svc) l = l
  start_linked-Linked m sid rid iid q (ok u, svc) l =
      store_started-Linked (start_turn m sid rid q svc.sessions)
    where
      store_started-Linked :
          (r : Result String × Sessions) → Linked (store_started sid rid iid q r svc).1
      store_started-Linked (err e, sessions) = l
      store_started-Linked (ok turn_id, sessions) = elim (Bool-cases (is_empty iid)) [
        | inl anonymous ↦ rw anonymous l
        | inr known ↦
            let f = insert_turn (new_turn sid rid (record q { turn_id = turn_id })) in
            rw known (ap (get k) (with_durable-links f (record svc { sessions = sessions })) ∙ l)
      ]

  finalize_linked-Linked :
      (m : ℕ) (sid rid iid : String) (turn_id : Option String) (now : String) (answer : Answer)
      (r : Result (Unit {0}) × Service)
      → Linked r.1
      → Linked (finalize_linked m sid rid iid turn_id now answer r).1
  finalize_linked-Linked m sid rid iid turn_id now answer (err e, svc) l = l
  finalize_linked-Linked m sid rid iid none now answer (ok u, svc) l = l
  finalize_linked-Linked m sid rid iid (some turn_id) now answer (ok u, svc) l =
      elim (Bool-cases (is_empty turn_id)) [
        | inl blank ↦ rw blank l
        | inr given ↦
            rw given
              (store_finalized-Linked (finalize_turn m sid rid turn_id now answer svc.sessions))
      ]
    where
      finalize_durable-Linked :
          (svc' : Service) (o : Option Durable)
          → Linked svc'
          → Linked (finalize_durable sid iid turn_id now answer svc' o).1
      finalize_durable-Linked svc' none l' = l'
      finalize_durable-Linked svc' (some d) l' = elim (Bool-cases (is_empty iid)) [
        | inl anonymous ↦ rw anonymous l'
        | inr known ↦ rw known l'
      ]

      store_finalized-Linked :
          (r : Result (Unit {0}) × Sessions)
          → Linked (store_finalized sid iid turn_id now answer r svc).1
      store_finalized-Linked (err e, sessions) = l
      store_finalized-Linked (ok u', sessions) =
          finalize_durable-Linked (record svc { sessions = sessions }) svc.durable l

  -- Once a session is linked to a user, every start and every finalization of a request, of any session, user and
  -- outcome, leaves it linked to that user.
  pub requests-Linked :
      (m : ℕ) (session_id request_id fresh now : String) (identity_id turn_id : Option String)
      (q : Question) (answer : Answer) (svc : Service)
      → Linked svc
      → Linked (on_request_started m session_id request_id fresh identity_id q svc).1
        × Linked
            (on_request_finalized m session_id request_id fresh identity_id turn_id now answer
              svc).1
  unfolding on_request_started on_request_finalized
  requests-Linked m session_id request_id fresh now identity_id turn_id q answer svc l =
      let sid = strip session_id in
      let rid = id_or (strip request_id) fresh in
      let iid = strip_opt identity_id in
      elim (Bool-cases (is_empty sid)) [
        | inl blank ↦ rw blank (l, l)
        | inr given ↦
            let l' = link-Linked sid iid svc l in
            rw given (
              start_linked-Linked m sid rid iid (record q { identity_id = identity_or_none iid })
                  (link sid iid svc) l',
              finalize_linked-Linked m sid rid iid turn_id now answer (link sid iid svc) l',
            )
      ]

-- The link is refused.
link_refused :
    (session_id user i : String) (svc : Service)
    → is_empty (strip session_id) ≡ false
    → is_empty (strip user) ≡ false
    → get (strip session_id) svc.session_to_identity ≡ some i
    → is_empty i ≡ false
    → (i == strip user) ≡ false
    → link (strip session_id) (strip user) svc
      ≡ (err (value_error "session_id already linked to a different identity_id"), svc)
unfolding ensure_link
link_refused session_id user i svc session known there named other =
    rw
      (
        known,
        ensure_link,
        strip_idem session_id,
        strip_idem user,
        session,
        known,
        there,
        named,
        other,
      )
      refl

-- A request of a session that is linked to another user is refused, at its start and at its end, and changes
-- neither store nor link. The session and both users are named.
pub other_user_refused :
    (m : ℕ) (session_id request_id fresh now user i : String) (turn_id : Option String)
    (q : Question) (answer : Answer) (svc : Service)
    → is_empty (strip session_id) ≡ false
    → is_empty (strip user) ≡ false
    → get (strip session_id) svc.session_to_identity ≡ some i
    → is_empty i ≡ false
    → (i == strip user) ≡ false
    → (let refused = value_error "session_id already linked to a different identity_id" in
        (on_request_started m session_id request_id fresh (some user) q svc ≡ (err refused, svc))
        × (on_request_finalized m session_id request_id fresh (some user) turn_id now answer svc
            ≡ (err refused, svc)))
unfolding on_request_started on_request_finalized strip_opt
other_user_refused m session_id request_id fresh now user i turn_id q answer svc session known there
      named other =
    let e = link_refused session_id user i svc session known there named other in
    rw (session, e) (refl, refl)
