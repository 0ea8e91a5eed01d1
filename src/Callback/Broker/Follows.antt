-- ===== src/Callback/Broker/Follows.antt =====
-- A stream that has seen all events of its open run, and that other threads leave it so.
use local_ai_rag.Prelude.{
  ℕ, ◌+◌, ◌≤◌, ◌<◌, String, true, false, Option, none, some, List, [], ◌∷◌, ◌++◌, ◌≡◌, ◌≢◌, refl,
  arith, last_n, last_n-append, All, ◌==◌, eq_iff, eq_refl, Bool-cases, Option-cases, inl, inr,
  some-injective, subst, ap, sym, ◌∙◌, ◌⊎◌,
}
use mathlib.Core.List.{append_assoc}
use local_ai_rag.Text.{strip, is_empty}
use local_ai_rag.Dict.{Dict, get, put, get-put, get-remove, All-remove, All-put, All-get}
use local_ai_rag.Callback.Broker.Queues.{
  occurrences, put_all-absent, put_all-once, occurrences-keep_if, occurrences-append,
}
use local_ai_rag.Value.{Value}
use local_ai_rag.Pipeline.Validator.Rules.{elem}
use local_ai_rag.Callback.Policy.{CallbackPolicy}
use local_ai_rag.Callback.Broker.{
  Broker, TraceRun, configure_run, open_stream, remove_stream, emit_policy, deliver, close, look,
  pop, give_up, without_first, put_all, max_events_per_run, run_or_new, set_policy, add_event,
  is_stale, detach, close_reason, done_item,
}

module _ (rid : String) (q : ℕ) (snapshot : List (Dict Value)) where
  -- Only the run itself puts into the queue.
  abbrev pub Elsewhere : String × TraceRun → Type 0
  Elsewhere (k, run) = (k ≡ rid) ⊎ (occurrences q run.queues ≡ 0)

  -- What was replayed and what was put into the queue since are together the run's events.
  abbrev pub SameEvents : TraceRun → Broker → Type 0
  SameEvents run b = run.events ≡ last_n max_events_per_run (snapshot ++ b.contents q)

  -- The stream is attached to the open run, and has seen all of it.
  pub record Follows (b : Broker) : Type 0 where
    pub run : TraceRun
    pub found : get rid b.runs ≡ some run
    pub is_open : run.closed ≡ false
    pub once : occurrences q run.queues ≡ 1
    pub elsewhere : All Elsewhere b.runs
    pub given : q < b.next_queue
    -- no cleanup under way is about to pop the run
    pub unlisted : elem rid b.stale ≡ false
    pub events : SameEvents run b

  abbrev with_run : String → TraceRun → ℕ → (ℕ → List (Dict Value)) → Broker → Broker
  with_run k run next contents b = record {
    runs = put k run b.runs;
    next_queue = next;
    contents = contents;
    stale = b.stale;
  }

  -- The run itself is changed.
  own :
      (run' : TraceRun) (next : ℕ) (contents : ℕ → List (Dict Value)) (b : Broker)
      → Follows b
      → run'.closed ≡ false
      → occurrences q run'.queues ≡ 1
      → b.next_queue ≤ next
      → run'.events ≡ last_n max_events_per_run (snapshot ++ contents q)
      → Follows (with_run rid run' next contents b)
  own run' next contents b f opn one n e = record {
    run = run';
    found = get-put rid rid run' b.runs ∙ rw (eq_refl rid) refl;
    is_open = opn;
    once = one;
    elsewhere = All-put Elsewhere rid run' b.runs (inl refl) f.elsewhere;
    given = omega (arith, f.given);
    unlisted = f.unlisted;
    events = e;
  }

  -- Another run is changed.
  other :
      (k : String) (run' : TraceRun) (next : ℕ) (contents : ℕ → List (Dict Value)) (b : Broker)
      → Follows b
      → (k == rid) ≡ false
      → occurrences q run'.queues ≡ 0
      → b.next_queue ≤ next
      → contents q ≡ b.contents q
      → Follows (with_run k run' next contents b)
  other k run' next contents b f ne absent n e = record {
    run = f.run;
    found = get-put k rid run' b.runs ∙ rw ne f.found;
    is_open = f.is_open;
    once = f.once;
    elsewhere = All-put Elsewhere k run' b.runs (inr absent) f.elsewhere;
    given = omega (arith, f.given);
    unlisted = f.unlisted;
    events = rw e f.events;
  }

  -- No other run has the queue, and a new one has none.
  absent_elsewhere :
      (created : ℕ) (k : String) (b : Broker)
      → Follows b
      → (k == rid) ≡ false
      → occurrences q (run_or_new created (get k b.runs)).queues ≡ 0
  unfolding occurrences
  absent_elsewhere created k b f ne = elim (Option-cases (get k b.runs)) [
    | inl absent ↦ rw absent refl
    | inr (run, found) ↦ rw found (elim (All-get Elsewhere k run b.runs f.elsewhere found) [
      | inl same ↦ absurd (cc (ne, (eq_iff k rid).1 same))
      | inr none_there ↦ none_there
    ])
  ]

  -- The critical sections of other threads and the steps of their cleanups, while nobody closes the run or
  -- removes the stream.
  pub data OtherStep : Broker → Broker → Type 0 where
    configures :
        (created : ℕ) (run_id : String) (policy : Option CallbackPolicy) {b : Broker}
        → OtherStep b (configure_run created run_id policy b)
    opens :
        (created : ℕ) (run_id : String) {b : Broker}
        → OtherStep b ((open_stream created run_id b).1)
    removes :
        (run_id : String) (p : ℕ) {b : Broker} → p ≢ q → OtherStep b (remove_stream run_id p b)
    asks : (created : ℕ) (k : String) {b : Broker} → OtherStep b ((emit_policy created k b).1)
    delivers :
        (emitted : ℕ) (k : String) (event : Dict Value) {b : Broker}
        → OtherStep b (deliver emitted k event b)
    closes :
        (created : ℕ) (run_id reason : String) {b : Broker}
        → (strip run_id == rid) ≡ false
        → OtherStep b (close created run_id reason b)
    looks : (now : ℕ) (rid : String) {b : Broker} → OtherStep b (look now rid b)
    pops : (rid : String) {b : Broker} → OtherStep b (pop rid b)
    gives_up : (rid : String) {b : Broker} → OtherStep b (give_up rid b)

  the_run :
      (created : ℕ) (k : String) (b : Broker) (f : Follows b)
      → (k == rid) ≡ true
      → run_or_new created (get k b.runs) ≡ f.run
  the_run created k b f same = rw ((eq_iff k rid).0 same, f.found) refl

  -- A change that the stream does not see: neither the events nor the places of its queue change.
  unseen :
      (created : ℕ) (k : String) (run' : TraceRun) (next : ℕ) (b : Broker)
      → Follows b
      → b.next_queue ≤ next
      → (let run = run_or_new created (get k b.runs) in
          (run'.closed ≡ run.closed)
          × ((occurrences q run'.queues ≡ occurrences q run.queues) × (run'.events ≡ run.events)))
      → Follows (with_run k run' next b.contents b)
  unseen created k run' next b f n (c, (o, e)) = elim (Bool-cases (k == rid)) [
    | inl same ↦
        let r = the_run created k b f same in
        subst (λ j. Follows (with_run j run' next b.contents b)) (sym ((eq_iff k rid).0 same))
          (own run' next b.contents b f (c ∙ ap (λ x. x.closed) r ∙ f.is_open)
            (o ∙ ap (λ x. occurrences q x.queues) r ∙ f.once) n
            (e ∙ ap (λ x. x.events) r ∙ f.events))
    | inr ne ↦ other k run' next b.contents b f ne (o ∙ absent_elsewhere created k b f ne) n refl
  ]

  set_policy-keeps :
      (policy : Option CallbackPolicy) (run : TraceRun)
      → ((set_policy policy run).closed ≡ run.closed)
        × ((occurrences q (set_policy policy run).queues ≡ occurrences q run.queues)
            × ((set_policy policy run).events ≡ run.events))
  set_policy-keeps none run = (refl, (refl, refl))
  set_policy-keeps (some p) run = (refl, (refl, refl))

  configured :
      (created : ℕ) (run_id : String) (policy : Option CallbackPolicy) (b : Broker)
      → Follows b
      → Follows (configure_run created run_id policy b)
  unfolding configure_run
  configured created run_id policy b f = elim (Bool-cases (is_empty (strip run_id))) [
    | inl empty ↦ rw empty f
    | inr named ↦
        let k = strip run_id in
        let run = run_or_new created (get k b.runs) in
        rw named (
          unseen created k (set_policy policy run) b.next_queue b f (omega arith)
            (set_policy-keeps policy run))
  ]

  attached :
      (created : ℕ) (run_id : String) (b : Broker)
      → Follows b
      → Follows ((open_stream created run_id b).1)
  unfolding open_stream
  attached created run_id b f = elim (Bool-cases (is_empty (strip run_id))) [
    | inl empty ↦ rw empty f
    | inr named ↦
        let k = strip run_id in
        let run = run_or_new created (get k b.runs) in
        let o = occurrences-append q b.next_queue run.queues (omega (arith, f.given)) in
        rw named (
          unseen created k (record run { queues = run.queues ++ b.next_queue ∷ [] })
            (b.next_queue + 1) b f (omega arith) (refl, (o, refl)))
  ]

  detached :
      (run_id : String) (p : ℕ) (b : Broker)
      → p ≢ q
      → Follows b
      → Follows (remove_stream run_id p b)
  unfolding remove_stream
  detached run_id p b d f = elim (Bool-cases (is_empty (strip run_id))) [
    | inl empty ↦ rw empty f
    | inr named ↦ elim (Option-cases (get (strip run_id) b.runs)) [
      | inl absent ↦ rw (named, absent) f
      | inr (run, found) ↦
          let same : run_or_new 0 (get (strip run_id) b.runs) ≡ run = rw found refl in
          rw (named, found)
            (unseen 0 (strip run_id) (detach p run) b.next_queue b f (omega arith)
              (rw same (refl, (occurrences-keep_if q p run.queues d, refl))))
    ]
  ]

  asked :
      (created : ℕ) (k : String) (b : Broker) → Follows b → Follows ((emit_policy created k b).1)
  unfolding emit_policy
  asked created k b f =
      unseen created k (run_or_new created (get k b.runs)) b.next_queue b f (omega arith)
        (refl, (refl, refl))

  delivered_here :
      (emitted : ℕ) (event : Dict Value) (b : Broker) (f : Follows b)
      → Follows (
          with_run rid
            (add_event emitted event f.run)
            b.next_queue
            (put_all event f.run.queues b.contents)
            b)
  delivered_here emitted event b f =
      let put = put_all-once q event f.run.queues b.contents f.once in
      let e =
        ap (λ es. last_n max_events_per_run (es ++ event ∷ [])) f.events
        ∙ last_n-append max_events_per_run (snapshot ++ b.contents q) (event ∷ [])
        ∙ ap (last_n max_events_per_run) (append_assoc snapshot (b.contents q) (event ∷ []))
        ∙ ap (λ c. last_n max_events_per_run (snapshot ++ c)) (sym put) in
      own (add_event emitted event f.run) b.next_queue (put_all event f.run.queues b.contents) b f
        f.is_open f.once (omega arith) e

  delivered :
      (emitted : ℕ) (k : String) (event : Dict Value) (b : Broker)
      → Follows b
      → Follows (deliver emitted k event b)
  unfolding deliver
  delivered emitted k event b f = elim (Bool-cases (k == rid)) [
    | inl same ↦
        subst (λ j. Follows (deliver emitted j event b)) (sym ((eq_iff k rid).0 same))
          (rw (f.found, deliver) (delivered_here emitted event b f))
    | inr ne ↦ elim (Option-cases (get k b.runs)) [
      | inl absent ↦ rw (absent, deliver) f
      | inr (run, found) ↦
          let o : occurrences q run.queues ≡ 0 = rw found at (absent_elsewhere 0 k b f ne) in
          rw (found, deliver)
            (other k (add_event emitted event run) b.next_queue
              (put_all event run.queues b.contents) b f ne o (omega arith)
              (put_all-absent q event run.queues b.contents o))
    ]
  ]

  closed_elsewhere :
      (created : ℕ) (run_id reason : String) (b : Broker)
      → (strip run_id == rid) ≡ false
      → Follows b
      → Follows (close created run_id reason b)
  unfolding close
  closed_elsewhere created run_id reason b ne f = elim (Bool-cases (is_empty (strip run_id))) [
    | inl empty ↦ rw empty f
    | inr named ↦
        let k = strip run_id in
        let run = run_or_new created (get k b.runs) in
        let o = absent_elsewhere created k b f ne in
        let item = done_item (close_reason reason) in
        rw named (
          other k (record run { closed = true; closed_reason = close_reason reason }) b.next_queue
            (put_all item run.queues b.contents) b f ne o (omega arith)
            (put_all-absent q item run.queues b.contents o))
  ]

  -- A cleanup does not list the run, which is open.
  looked : (now : ℕ) (k : String) (b : Broker) → Follows b → Follows (look now k b)
  unfolding look elem
  looked now k b f = elim (Option-cases (get k b.runs)) [
    | inl absent ↦ rw (absent, look) f
    | inr (run, found) ↦ elim (Bool-cases (is_stale now run)) [
      | inr kept ↦ rw (found, kept, look) f
      | inl old ↦ elim (Bool-cases (rid == k)) [
        | inl same ↦
            let here : get rid b.runs ≡ some run = rw ((eq_iff rid k).0 same) found in
            let e : f.run ≡ run = some-injective (sym f.found ∙ here) in
            let opn : run.closed ≡ false = ap (λ x. x.closed) (sym e) ∙ f.is_open in
            cc (rw opn at old)
        | inr ne ↦
            rw (found, old, look)
              (record {
                run = f.run;
                found = f.found;
                is_open = f.is_open;
                once = f.once;
                elsewhere = f.elsewhere;
                given = f.given;
                unlisted = rw (ne, elem) f.unlisted;
                events = f.events;
              })
      ]
    ]
  ]

  unlisted-without :
      (k : String) (xs : List String) → elem rid xs ≡ false → elem rid (without_first k xs) ≡ false
  unfolding elem
  unlisted-without k [] h = h
  unlisted-without k (x ∷ xs) h = ground (arith, unlisted-without k xs)

  gave_up : (k : String) (b : Broker) → Follows b → Follows (give_up k b)
  unfolding give_up
  gave_up k b f = record {
    run = f.run;
    found = f.found;
    is_open = f.is_open;
    once = f.once;
    elsewhere = f.elsewhere;
    given = f.given;
    unlisted = unlisted-without k b.stale f.unlisted;
    events = f.events;
  }

  -- What a cleanup pops is another run.
  popped : (k : String) (b : Broker) → Follows b → Follows (pop k b)
  unfolding pop
  popped k b f = elim (Bool-cases (elem k b.stale)) [
    | inr unlisted ↦ rw (unlisted, pop) f
    | inl listed ↦ elim (Bool-cases (k == rid)) [
      | inl same ↦ cc (rw ((eq_iff k rid).0 same, f.unlisted) at listed)
      | inr ne ↦
          rw (listed, pop)
            (record {
              run = f.run;
              found = get-remove k rid b.runs ∙ rw ne f.found;
              is_open = f.is_open;
              once = f.once;
              elsewhere = All-remove Elsewhere k b.runs f.elsewhere;
              given = f.given;
              unlisted = unlisted-without k b.stale f.unlisted;
              events = f.events;
            })
    ]
  ]

  -- Any number of these steps.
  pub data Others : Broker → Broker → Type 0 where
    none_yet : {b : Broker} → Others b b
    then_also : {b c d : Broker} → Others b c → OtherStep c d → Others b d

  step-Follows : (b c : Broker) → OtherStep b c → Follows b → Follows c
  step-Follows b c (configures created run_id policy) f = configured created run_id policy b f
  step-Follows b c (opens created run_id) f = attached created run_id b f
  step-Follows b c (removes run_id p d) f = detached run_id p b d f
  step-Follows b c (asks created k) f = asked created k b f
  step-Follows b c (delivers emitted k event) f = delivered emitted k event b f
  step-Follows b c (closes created run_id reason ne) f =
      closed_elsewhere created run_id reason b ne f
  step-Follows b c (looks now k) f = looked now k b f
  step-Follows b c (pops k) f = popped k b f
  step-Follows b c (gives_up k) f = gave_up k b f

  pub others-Follows : (b c : Broker) → Others b c → Follows b → Follows c
  others-Follows b c none_yet f = f
  others-Follows b d (then_also {c = c} s step) f = step-Follows c d step (others-Follows b c s f)
