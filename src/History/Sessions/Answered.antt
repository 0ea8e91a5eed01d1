-- ===== src/History/Sessions/Answered.antt =====
-- Which turn `finalize_turn` writes, and that it is then listed.
use local_ai_rag.Prelude.{
  ℕ, suc, ◌-◌, String, Bool, true, false, Option, none, some, List, [], ◌∷◌, ◌++◌, ◌≡◌, refl, ap,
  sym, ◌∙◌, arith, ◌==◌, eq_iff, inl, inr, Bool-cases, Option-cases, All, length, length-append,
  last_n, drop, drop-append, keep_if,
}
use local_ai_rag.Text.{is_empty, strip, strip_opt}
use local_ai_rag.Pipeline.Result.{Result}
use local_ai_rag.History.Turn.{ConversationTurn, Answer, finalize, update}
use local_ai_rag.History.Sessions.{
  Sessions, SessionData, Question, load, start_turn, finalize_turn, finalize_last, finalize_in,
  list_recent_finalized_turns, is_finalized, new_turn, add_turn,
}
use local_ai_rag.History.Sessions.Laws.{load-save, start_in-new, existing}

-- A turn of another id.
abbrev pub Other : String → ConversationTurn → Type 0
Other tid t = (t.turn_id == tid) ≡ false

-- The last turn of the id is replaced by its finalized form, and all others stay; or there is no such turn.
abbrev pub Finalized :
    String → String → Answer → List ConversationTurn → Option (List ConversationTurn) → Type 0
Finalized tid now answer turns none = All (Other tid) turns
Finalized tid now answer turns (some turns') =
    (before : List ConversationTurn) × (t : ConversationTurn) × (after : List ConversationTurn)
    × (t.turn_id ≡ tid)
    × All (Other tid) after
    × (turns ≡ before ++ t ∷ after)
    × (turns' ≡ before ++ finalize now answer t ∷ after)

Finalized-cons :
    (tid now : String) (answer : Answer) (t : ConversationTurn) (ts ts' : List ConversationTurn)
    → Finalized tid now answer ts (some ts')
    → Finalized tid now answer (t ∷ ts) (some (t ∷ ts'))
Finalized-cons tid now answer t ts ts' (before, u, after, i, o, e, e') =
    (t ∷ before, u, after, i, o, ap (λ x. t ∷ x) e, ap (λ x. t ∷ x) e')

-- The backward search of `finalize_turn` finalizes the last turn of the id and leaves all others as they are, and
-- finds nothing exactly when no turn has the id.
pub finalize_last-Finalized :
    (tid now : String) (answer : Answer) (turns : List ConversationTurn)
    → Finalized tid now answer turns (finalize_last tid now answer turns)
unfolding finalize_last
finalize_last-Finalized tid now answer [] = tt
finalize_last-Finalized tid now answer (t ∷ ts) =
    let ih = finalize_last-Finalized tid now answer ts in
    elim (Option-cases (finalize_last tid now answer ts)) [
      | inr (ts', later) ↦
          let there : Finalized tid now answer ts (some ts') = rw later at ih in
          rw (later, finalize_last) (Finalized-cons tid now answer t ts ts' there)
      | inl nowhere ↦
          let others : All (Other tid) ts = rw nowhere at ih in
          elim (Bool-cases (t.turn_id == tid)) [
            | inl same ↦
                rw (nowhere, same, finalize_last)
                  ([], t, ts, (eq_iff t.turn_id tid).0 same, others, refl, refl)
            | inr other ↦ rw (nowhere, other, finalize_last) (other, others)
          ]
    ]

module _ {A : Type 0} where
  -- Behind a cut to at least one element the last one is still there.
  last_n-append-one :
      (m : ℕ) (xs : List A) (x : A) → (ys : List A) × (last_n (suc m) (xs ++ x ∷ []) ≡ ys ++ x ∷ [])
  unfolding last_n
  last_n-append-one m xs x =
      let n : ℕ = length (xs ++ x ∷ []) - suc m in
      (drop n xs, drop-append n xs (x ∷ []) (omega (arith, length-append xs (x ∷ []))))

  drop-all : (xs : List A) → drop (length xs) xs ≡ []
  drop-all [] = refl
  drop-all (x ∷ xs) = drop-all xs

  last_n-one : (xs : List A) (x : A) → last_n 1 (xs ++ x ∷ []) ≡ x ∷ []
  unfolding last_n
  last_n-one xs x =
      let e : length (xs ++ x ∷ []) - 1 ≡ length xs = omega (arith, length-append xs (x ∷ [])) in
      ap (λ n. drop n (xs ++ x ∷ [])) e
      ∙ drop-append (length xs) xs (x ∷ []) (omega arith)
      ∙ ap (λ l. l ++ x ∷ []) (drop-all xs)

  keep_if-append :
      (p : A → Bool) (xs ys : List A) → keep_if p (xs ++ ys) ≡ keep_if p xs ++ keep_if p ys
  unfolding keep_if
  keep_if-append p [] ys = refl
  keep_if-append p (x ∷ xs) ys = elim (Bool-cases (p x)) [
    | inl kept ↦ rw kept (ap (λ l. x ∷ l) (keep_if-append p xs ys))
    | inr gone ↦ rw gone (keep_if-append p xs ys)
  ]

-- The search meets the new turn first.
finalize_last-append :
    (tid now : String) (answer : Answer) (xs : List ConversationTurn) (t : ConversationTurn)
    → t.turn_id ≡ tid
    → finalize_last tid now answer (xs ++ t ∷ []) ≡ some (xs ++ finalize now answer t ∷ [])
unfolding finalize_last
finalize_last-append tid now answer [] t h = rw ((eq_iff t.turn_id tid).1 h) refl
finalize_last-append tid now answer (x ∷ xs) t h =
    rw (finalize_last-append tid now answer xs t h) refl

-- What is listed of a session that ends with a finalized turn, one turn being asked for.
listed_last :
    (session_id : String) (saved : SessionData) (xs : List ConversationTurn) (t : ConversationTurn)
    (store : Sessions)
    → is_empty (strip session_id) ≡ false
    → load (strip session_id) store ≡ saved
    → saved.turns ≡ xs ++ t ∷ []
    → is_finalized t ≡ true
    → list_recent_finalized_turns session_id 1 store ≡ t ∷ []
unfolding list_recent_finalized_turns keep_if
listed_last session_id saved xs t store named l e f =
    let kept : keep_if is_finalized (t ∷ []) ≡ t ∷ [] = rw f refl in
    let all =
      ap (λ d. keep_if is_finalized d.turns) l
      ∙ ap (keep_if is_finalized) e
      ∙ keep_if-append is_finalized xs (t ∷ [])
      ∙ ap (λ l. keep_if is_finalized xs ++ l) kept in
    rw named (ap (last_n 1) all ∙ last_n-one (keep_if is_finalized xs) t)

-- The turn is the last one of the session, where its request was not known before.
started_last :
    (m : ℕ) (session_id request_id : String) (q : Question) (store : Sessions)
    → is_empty (strip session_id) ≡ false
    → is_empty (strip request_id) ≡ false
    → is_empty (strip (existing (strip session_id) (strip request_id) store)) ≡ true
    → (ys : List ConversationTurn) × ((load
          (strip session_id)
          (start_turn (suc m) session_id request_id q store).1).turns
        ≡ ys ++ new_turn (strip session_id) (strip request_id) q ∷ [])
unfolding start_turn
started_last m session_id request_id q store session request absent =
    let sid = strip session_id in
    let rid = strip request_id in
    let before = load sid store in
    let (ys, cut) = last_n-append-one m before.turns (new_turn sid rid q) in
    let e =
      ap (λ (r : Result String × Sessions). (load sid r.1).turns)
        (start_in-new (suc m) sid rid q store absent)
      ∙ ap (λ d. d.turns) (load-save sid (add_turn (suc m) sid rid q before) store)
      ∙ cut in
    (ys, rw (session, request) e)

-- Finalizing a session's last turn, by its id.
finalized_last :
    (m : ℕ) (session_id request_id turn_id now : String) (answer : Answer)
    (ys : List ConversationTurn) (t : ConversationTurn) (store : Sessions)
    → is_empty (strip session_id) ≡ false
    → is_empty (strip request_id) ≡ false
    → is_empty (strip turn_id) ≡ false
    → t.turn_id ≡ strip turn_id
    → (load (strip session_id) store).turns ≡ ys ++ t ∷ []
    → (zs : List ConversationTurn) × ((load
          (strip session_id)
          (finalize_turn (suc m) session_id request_id turn_id now answer store).1).turns
        ≡ zs ++ finalize now answer t ∷ [])
unfolding finalize_turn
finalized_last m session_id request_id turn_id now answer ys t store session request turn same e =
    let sid = strip session_id in
    let before = load sid store in
    let found =
      ap (finalize_last (strip turn_id) now answer) e
      ∙ finalize_last-append (strip turn_id) now answer ys t same in
    let (zs, cut) = last_n-append-one m ys (finalize now answer t) in
    let written : SessionData = record before {
      turns = last_n (suc m) (ys ++ finalize now answer t ∷ []);
    } in
    let after =
      ap (λ o. (load sid (finalize_in (suc m) sid before o store).1).turns) found
      ∙ ap (λ d. d.turns) (load-save sid written store)
      ∙ cut in
    (zs, rw (session, request, turn) after)

-- A turn with the question and the answer that were handed in, under the names given.
pub record IsAnswered (session_id request_id now : String) (q : Question) (answer : Answer)
    (t : ConversationTurn) : Type 0 where
  pub turn_id : t.turn_id ≡ q.turn_id
  pub session_id_kept : t.session_id ≡ strip session_id
  pub request_id_kept : t.request_id ≡ strip request_id
  pub created : t.created_at_utc ≡ q.now
  pub identity : t.identity_id ≡ q.identity_id
  pub finalized : t.finalized_at_utc ≡ some now
  pub question : t.question_neutral ≡ q.neutral
  pub question_translated : t.question_translated ≡ q.translated
  pub answered : t.answer_neutral ≡ some answer.neutral
  pub answer_translated : t.answer_translated ≡ answer.translated
  pub is_fallback : t.answer_translated_is_fallback ≡ answer.is_fallback
  pub metadata : t.metadata ≡ update q.meta answer.meta

-- A turn that is started for a new request and then finalized is what the listing of one turn shows, with every
-- field of the question and the answer given, the translations included. The names are not blank, the id made for the turn has no outer whitespace, and
-- neither the answer nor the clock's text is blank.
pub start-finalize-list :
    (m : ℕ) (session_id request_id now : String) (q : Question) (answer : Answer) (store : Sessions)
    → is_empty (strip session_id) ≡ false
    → is_empty (strip request_id) ≡ false
    → is_empty (strip (existing (strip session_id) (strip request_id) store)) ≡ true
    → strip q.turn_id ≡ q.turn_id
    → is_empty q.turn_id ≡ false
    → is_empty (strip now) ≡ false
    → is_empty (strip answer.neutral) ≡ false
    → (t : ConversationTurn) × ((let started =
            (start_turn (suc m) session_id request_id q store).1 in
          list_recent_finalized_turns session_id 1
            (finalize_turn (suc m) session_id request_id q.turn_id now answer started).1)
        ≡ t ∷ [])
      × IsAnswered session_id request_id now q answer t
unfolding strip_opt
start-finalize-list m session_id request_id now q answer store session request absent trimmed turn
      clock said =
    let started = (start_turn (suc m) session_id request_id q store).1 in
    let t = new_turn (strip session_id) (strip request_id) q in
    let (ys, last) = started_last m session_id request_id q store session request absent in
    let (zs, done) =
      finalized_last m session_id request_id q.turn_id now answer ys t started session request
        (rw trimmed turn) (sym trimmed) last in
    let f : is_finalized (finalize now answer t) ≡ true = rw (clock, said) refl in
    (
      finalize now answer t,
      listed_last session_id _ zs (finalize now answer t) _ session refl done f,
      record {
        turn_id = refl;
        session_id_kept = refl;
        request_id_kept = refl;
        created = refl;
        identity = refl;
        finalized = refl;
        question = refl;
        question_translated = refl;
        answered = refl;
        answer_translated = refl;
        is_fallback = refl;
        metadata = refl;
      },
    )
