-- ===== src/Callback/Broker/Waiting.antt =====
-- A queue that has not been given out yet holds nothing.
use local_ai_rag.Prelude.{
  ℕ, ◌+◌, ◌≤◌, ◌<◌, List, [], ◌∷◌, ◌≡◌, refl, arith, All, Bool-cases, Option-cases, inl, inr, ◌∙◌,
}
use local_ai_rag.Text.{strip, is_empty}
use local_ai_rag.Dict.{Dict, get, get-All}
use local_ai_rag.Value.{Value}
use local_ai_rag.Pipeline.Validator.Rules.{elem}
use local_ai_rag.Callback.Broker.{
  Broker, configure_run, open_stream, remove_stream, emit_policy, deliver, close, look, pop,
  give_up, put_all, is_stale, run_or_new, close_reason, done_item,
}
use local_ai_rag.Callback.Broker.Laws.{
  IsValid, IsSound, Step, configures, opens, removes, asks, delivers, closes, looks, pops, gives_up,
  Reachable, start, also, Reachable-IsValid, run_or_new-IsSound,
}
use local_ai_rag.Callback.Broker.Queues.{occurrences-above, put_all-absent}

-- Nothing has been put into the queues to come.
unfoldable pub NoneWaiting : Broker → Type 0
NoneWaiting b = (q : ℕ) → b.next_queue ≤ q → b.contents q ≡ []

-- Putting to queues that have been given out leaves the others alone.
All-below : (n q : ℕ) (qs : List ℕ) → n ≤ q → All (λ x. x < n) qs → All (λ x. x < q) qs
All-below n q [] above a = tt
All-below n q (x ∷ qs) above (h, a) = (omega arith, All-below n q qs above a)

put_all-NoneWaiting :
    (n : ℕ) (item : Dict Value) (qs : List ℕ) (c : ℕ → List (Dict Value))
    → All (λ q. q < n) qs
    → ((q : ℕ) → n ≤ q → c q ≡ [])
    → (q : ℕ) → n ≤ q
    → put_all item qs c q ≡ []
put_all-NoneWaiting n item qs c a w q above =
    put_all-absent q item qs c (occurrences-above q qs (All-below n q qs above a)) ∙ w q above

Step-NoneWaiting : (b c : Broker) → Step b c → IsValid b → NoneWaiting b → NoneWaiting c
unfolding NoneWaiting configure_run open_stream remove_stream emit_policy deliver close look pop
    give_up IsValid IsSound
Step-NoneWaiting b c (configures created run_id policy) v w q h =
    elim (Bool-cases (is_empty (strip run_id))) [
      | inl empty ↦ rw empty (w q (rw empty at h))
      | inr named ↦ rw named (w q (rw named at h))
    ]
Step-NoneWaiting b c (opens created run_id) v w q h = elim (Bool-cases (is_empty (strip run_id))) [
  | inl empty ↦ rw empty (w q (rw empty at h))
  | inr named ↦ let h' : b.next_queue + 1 ≤ q = rw named at h in rw named (w q (omega (arith, h')))
]
Step-NoneWaiting b c (removes run_id p) v w q h = elim (Bool-cases (is_empty (strip run_id))) [
  | inl empty ↦ rw empty (w q (rw empty at h))
  | inr named ↦ elim (Option-cases (get (strip run_id) b.runs)) [
    | inl absent ↦ rw (named, absent) (w q (rw (named, absent) at h))
    | inr (run, found) ↦ rw (named, found) (w q (rw (named, found) at h))
  ]
]
Step-NoneWaiting b c (asks created rid) v w q h = w q h
Step-NoneWaiting b c (delivers emitted rid event) v w q h = elim (Option-cases (get rid b.runs)) [
  | inl absent ↦ rw (absent, deliver) (w q (rw (absent, deliver) at h))
  | inr (run, found) ↦
      let s = get-All (IsSound b.next_queue) rid run b.runs v found in
      rw (found, deliver)
        (put_all-NoneWaiting b.next_queue event run.queues b.contents s.1 w q
          (rw (found, deliver) at h))
]
Step-NoneWaiting b c (closes created run_id reason) v w q h =
    elim (Bool-cases (is_empty (strip run_id))) [
      | inl empty ↦ rw empty (w q (rw empty at h))
      | inr named ↦
          let s = run_or_new-IsSound created (strip run_id) b v in
          rw named (
            put_all-NoneWaiting b.next_queue (done_item (close_reason reason))
              (run_or_new created (get (strip run_id) b.runs)).queues b.contents s.1 w q
              (rw named at h))
    ]
Step-NoneWaiting b c (looks now rid) v w q h = elim (Option-cases (get rid b.runs)) [
  | inl absent ↦ rw (absent, look) (w q (rw (absent, look) at h))
  | inr (run, found) ↦ elim (Bool-cases (is_stale now run)) [
    | inl old ↦ rw (found, old, look) (w q (rw (found, old, look) at h))
    | inr kept ↦ rw (found, kept, look) (w q (rw (found, kept, look) at h))
  ]
]
Step-NoneWaiting b c (pops rid) v w q h = elim (Bool-cases (elem rid b.stale)) [
  | inl listed ↦ rw (listed, pop) (w q (rw (listed, pop) at h))
  | inr unlisted ↦ rw (unlisted, pop) (w q (rw (unlisted, pop) at h))
]
Step-NoneWaiting b c (gives_up rid) v w q h = w q h

pub Reachable-NoneWaiting : (b : Broker) → Reachable b → NoneWaiting b
unfolding NoneWaiting
Reachable-NoneWaiting b start = λ q h. refl
Reachable-NoneWaiting c (also {b} r step) =
    Step-NoneWaiting b c step (Reachable-IsValid b r) (Reachable-NoneWaiting b r)
