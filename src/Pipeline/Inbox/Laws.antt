-- ===== src/Pipeline/Inbox/Laws.antt =====
-- The inbox delivers each message once, to the step that it names, in order.
use mathlib.Core.List.{Perm, perm_middle, append-nil}
use mathlib.Core.List.Perm
use local_ai_rag.Prelude.{
  String, Bool, true, false, not, Option, List, [], ◌∷◌, ◌++◌, ◌==◌, ◌≡◌, refl, if◌then◌else◌,
  keep_if, arith, Bool-cases, inl, inr, ap, ◌∙◌, ◌↔◌,
}
use local_ai_rag.Text.{is_empty, strip, strip_idem}
use local_ai_rag.Dict.{Dict}
use local_ai_rag.Value.{Value}
use local_ai_rag.Pipeline.Result.{ok}
use local_ai_rag.Pipeline.State.{Message}
use local_ai_rag.Pipeline.Inbox.{enqueue_message, consume_inbox_for_step, is_for, is_json_payload}

module _ {A : Type 0} (p : A → Bool) where
  keep_if-append : (xs ys : List A) → keep_if p (xs ++ ys) ≡ keep_if p xs ++ keep_if p ys
  unfolding keep_if
  keep_if-append [] ys = refl
  keep_if-append (x ∷ xs) ys = ground (arith, keep_if-append xs ys)

  keep_if-keep_if-not : (xs : List A) → keep_if p (keep_if (λ x. not (p x)) xs) ≡ []
  unfolding keep_if
  keep_if-keep_if-not [] = refl
  keep_if-keep_if-not (x ∷ xs) = ground (arith, keep_if-keep_if-not xs)

  keep_if-perm : (xs : List A) → Perm xs (keep_if p xs ++ keep_if (λ x. not (p x)) xs)
  unfolding keep_if
  keep_if-perm [] = Perm.nil
  keep_if-perm (x ∷ xs) =
      let rest = Perm.cons x (keep_if-perm xs) in
      ground (
        arith,
        rest,
        Perm.trans rest (Perm.symm (perm_middle (keep_if p xs) (keep_if (λ y. not (p y)) xs))),
      )

-- Consuming takes and keeps, between them, exactly the messages that were there.
pub consume-perm :
    (sid : String) (inbox : List Message)
    → Perm inbox ((consume_inbox_for_step sid inbox).0 ++ (consume_inbox_for_step sid inbox).1)
unfolding consume_inbox_for_step
consume-perm sid inbox = elim (Bool-cases (is_empty (strip sid))) [
  | inl e ↦ rw e (Perm.refl inbox)
  | inr e ↦ rw e (keep_if-perm (is_for (strip sid)) inbox)
]

-- A second consumption by the same step finds nothing.
pub consume_twice :
    (sid : String) (inbox : List Message)
    → (consume_inbox_for_step sid (consume_inbox_for_step sid inbox).1).0 ≡ []
unfolding consume_inbox_for_step
consume_twice sid inbox = elim (Bool-cases (is_empty (strip sid))) [
  | inl e ↦ rw e refl
  | inr e ↦ rw e (keep_if-keep_if-not (is_for (strip sid)) inbox)
]

abbrev pub message : String → String → Option (Dict Value) → Message
message target topic payload = record {
  target_step_id = strip target;
  topic = strip topic;
  payload = payload;
}

enqueue-eq-ok :
    (target topic : String) (payload : Option (Dict Value)) (inbox : List Message)
    {inbox' : List Message}
    → enqueue_message target topic payload inbox ≡ ok inbox'
    → inbox' ≡ inbox ++ message target topic payload ∷ []
unfolding enqueue_message
enqueue-eq-ok target topic payload inbox h = ground arith

consume-append :
    (sid : String) (inbox : List Message) (m : Message)
    → is_empty (strip sid) ≡ false
    → consume_inbox_for_step sid (inbox ++ m ∷ []) ≡ (
        if is_for (strip sid) m
        then ((consume_inbox_for_step sid inbox).0 ++ m ∷ [], (consume_inbox_for_step sid inbox).1)
        else ((consume_inbox_for_step sid inbox).0, (consume_inbox_for_step sid inbox).1 ++ m ∷ []))
unfolding consume_inbox_for_step keep_if
consume-append sid inbox m e = rw e (
    ground (
      arith,
      keep_if-append (is_for (strip sid)) inbox (m ∷ []),
      keep_if-append (λ x. not (is_for (strip sid) x)) inbox (m ∷ []),
      append-nil (keep_if (is_for (strip sid)) inbox),
      append-nil (keep_if (λ (x : Message). not (is_for (strip sid) x)) inbox),
    ))

-- A message enqueued for a step is the last one that the step's next consumption takes; a step of
-- another, non-empty id leaves it in the inbox, behind what it keeps. Nothing else changes.
pub consume-enqueue :
    (target topic sid : String) (payload : Option (Dict Value)) (inbox inbox' : List Message)
    → enqueue_message target topic payload inbox ≡ ok inbox'
    → is_empty (strip sid) ≡ false
    → let (taken, kept) = consume_inbox_for_step sid inbox in
      let m = message target topic payload in
      consume_inbox_for_step sid inbox'
      ≡ (if strip target == strip sid then (taken ++ m ∷ [], kept) else (taken, kept ++ m ∷ []))
consume-enqueue target topic sid payload inbox inbox' h e =
    rw (enqueue-eq-ok target topic payload inbox h) (
      consume-append sid inbox (message target topic payload) e
      ∙ ap
          (λ t.
            if t == strip sid
            then (
              (consume_inbox_for_step sid inbox).0 ++ message target topic payload ∷ [],
              (consume_inbox_for_step sid inbox).1,
            )
            else (
              (consume_inbox_for_step sid inbox).0,
              (consume_inbox_for_step sid inbox).1 ++ message target topic payload ∷ [],
            ))
          (strip_idem target))

-- `enqueue_message` succeeds exactly when both names are non-empty once stripped and JSON can write the payload.
pub enqueue-IsOk :
    (target topic : String) (payload : Option (Dict Value)) (inbox : List Message)
    → (enqueue_message target topic payload inbox ≡ ok (inbox ++ message target topic payload ∷ []))
      ↔ ((is_empty (strip target) ≡ false)
          × (is_empty (strip topic) ≡ false)
          × (is_json_payload payload ≡ true))
unfolding enqueue_message
enqueue-IsOk target topic payload inbox = ground arith
