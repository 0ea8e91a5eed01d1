-- ===== src/Pipeline/Actions/ContextBudget/Retry.antt =====
-- actions/manage_context_budget.py: a demand for compaction that a step has consumed is there again when
-- the step is entered the next time, if the context was over the budget.
use local_ai_rag.Prelude.{
  String, ◌≡◌, refl, sym, ◌∙◌, inl, inr, Bool, true, false, not, ◌&&◌, ◌||◌, none, List, [], ◌∷◌,
  Bool-cases, arith, keep_if, ◌==◌, eq_iff, eq_refl, subst,
}
use local_ai_rag.Prelude.Any.{Any, here, there, Any-append-left, Any-append-right}
use local_ai_rag.Prelude.Int.{ℤ}
use local_ai_rag.Text.{is_empty, strip, strip_idem}
use local_ai_rag.Dict.{Dict}
use local_ai_rag.Value.{Value, text, Builtins}
use local_ai_rag.Pipeline.Result.{ok}
use local_ai_rag.Pipeline.Definitions.{StepDef}
use local_ai_rag.Pipeline.State.{State, Message}
use local_ai_rag.Pipeline.Inbox.{enqueue_message, consume_inbox_for_step, is_for}
use local_ai_rag.Pipeline.Validator.Rules.{elem}
use local_ai_rag.Pipeline.Actions.ContextBudget.{undivided}
use local_ai_rag.Pipeline.Actions.ContextBudget.Rules.{Rule, rule_keys}
use local_ai_rag.Pipeline.Actions.ContextBudget.Loop.{Tools}
use local_ai_rag.Pipeline.Actions.ContextBudget.Run.{
  demand_topics_for_step, reenqueue, reenqueue_demand, read_step, commit, new_blocks,
  manage_context_budget,
}

-- A message that asks the step `sid` for the topic.
abbrev pub Asks : String → String → Message → Type 0
Asks sid topic m = (strip m.target_step_id ≡ strip sid) × (strip m.topic ≡ topic)

first-true : (a b : Bool) → (a && b) ≡ true → a ≡ true
first-true a b both = ground arith

right-true : (a : Bool) {b : Bool} → b ≡ true → (a || b) ≡ true
right-true a h = ground arith

module _ (sid topic : String) (filled : is_empty topic ≡ false) where
  topics-Asks :
      (ms : List Message)
      → elem topic (demand_topics_for_step sid ms) ≡ true
      → Any (Asks sid topic) ms
  unfolding demand_topics_for_step elem
  topics-Asks [] h = cc h
  topics-Asks (m ∷ ms) h =
      let t : String = strip m.topic in
      let same_step : Bool = strip m.target_step_id == strip sid in
      elim (Bool-cases (same_step && not (is_empty t))) [
        | inr other ↦ there (topics-Asks ms (rw (other, demand_topics_for_step) at h))
        | inl hit ↦
            let found : (topic == t || elem topic (demand_topics_for_step sid ms)) ≡ true =
              rw (hit, demand_topics_for_step) at h in
            elim (Bool-cases (topic == t)) [
              | inl same ↦ here (
                (eq_iff (strip m.target_step_id) (strip sid)).0
                    (first-true same_step (not (is_empty t)) hit),
                sym ((eq_iff topic t).0 same),
              )
              | inr differ ↦ there (topics-Asks ms (rw differ at found))
            ]
      ]

  Asks-topics :
      (ms : List Message)
      → Any (Asks sid topic) ms
      → elem topic (demand_topics_for_step sid ms) ≡ true
  unfolding demand_topics_for_step elem
  Asks-topics [] a = elim a [ ]
  Asks-topics (m ∷ ms) (here (target, t)) =
      rw
        (
          (eq_iff (strip m.target_step_id) (strip sid)).1 target,
          t,
          filled,
          demand_topics_for_step,
          elem,
        )
        (rw (eq_refl topic) refl)
  Asks-topics (m ∷ ms) (there a) =
      let ih = Asks-topics ms a in
      elim (Bool-cases (strip m.target_step_id == strip sid && not (is_empty (strip m.topic)))) [
        | inl hit ↦ rw (hit, demand_topics_for_step) (right-true (topic == strip m.topic) ih)
        | inr miss ↦ rw (miss, demand_topics_for_step) ih
      ]

  -- What a step is asked for it finds when it consumes its inbox.
  consume-Asks :
      (inbox : List Message)
      → is_empty (strip sid) ≡ false
      → Any (Asks sid topic) inbox
      → Any (Asks sid topic) (consume_inbox_for_step sid inbox).0
  unfolding consume_inbox_for_step keep_if
  consume-Asks inbox has_id a = rw has_id (go inbox a)
    where
      go :
          (ms : List Message)
          → Any (Asks sid topic) ms
          → Any (Asks sid topic) (keep_if (is_for (strip sid)) ms)
      go [] b = elim b [ ]
      go (m ∷ ms) (here (target, t)) =
          rw ((eq_iff (strip m.target_step_id) (strip sid)).1 target) (here (target, t))
      go (m ∷ ms) (there b) = elim (Bool-cases (is_for (strip sid) m)) [
        | inl taken ↦ rw taken (there (go ms b))
        | inr left ↦ rw left (go ms b)
      ]

  reenqueue-keeps :
      (other : String) (inbox : List Message)
      → Any (Asks sid topic) inbox
      → Any (Asks sid topic) (reenqueue sid other inbox)
  unfolding enqueue_message
  reenqueue-keeps other inbox a = elim (Bool-cases (not (is_empty (strip sid)))) [
    | inr blank ↦ rw (blank, reenqueue, enqueue_message) a
    | inl has_id ↦ elim (Bool-cases (not (is_empty (strip other)))) [
      | inr no_topic ↦ rw (has_id, no_topic, reenqueue, enqueue_message) a
      | inl has_topic ↦
          rw (has_id, has_topic, reenqueue, enqueue_message)
            (Any-append-left (Asks sid topic) inbox _ a)
    ]
  ]

  reenqueue-Asks :
      (inbox : List Message)
      → is_empty (strip sid) ≡ false
      → strip topic ≡ topic
      → Any (Asks sid topic) (reenqueue sid topic inbox)
  unfolding enqueue_message
  reenqueue-Asks inbox has_id trimmed =
      let blank : is_empty (strip topic) ≡ false = rw (trimmed, filled) refl in
      rw (has_id, blank, reenqueue, enqueue_message)
        (Any-append-right (Asks sid topic) inbox _
          (here (strip_idem sid, strip_idem topic ∙ trimmed)))

  reenqueue_demand-keeps :
      (keys topics : List String) (inbox : List Message)
      → Any (Asks sid topic) inbox
      → Any (Asks sid topic) (reenqueue_demand sid keys topics inbox)
  unfolding reenqueue_demand
  reenqueue_demand-keeps keys [] inbox a = a
  reenqueue_demand-keeps keys (t ∷ ts) inbox a = elim (Bool-cases (elem t keys)) [
    | inl wanted ↦
        rw wanted
          (reenqueue_demand-keeps keys ts (reenqueue sid t inbox) (reenqueue-keeps t inbox a))
    | inr other ↦ rw other (reenqueue_demand-keeps keys ts inbox a)
  ]

  -- A topic that was consumed and that a rule listens to is in the inbox again.
  reenqueue_demand-Asks :
      (keys topics : List String) (inbox : List Message)
      → is_empty (strip sid) ≡ false
      → strip topic ≡ topic
      → elem topic keys ≡ true
      → elem topic topics ≡ true
      → Any (Asks sid topic) (reenqueue_demand sid keys topics inbox)
  unfolding reenqueue_demand elem
  reenqueue_demand-Asks keys [] inbox has_id trimmed wanted h = cc h
  reenqueue_demand-Asks keys (t ∷ ts) inbox has_id trimmed wanted h =
      elim (Bool-cases (topic == t)) [
        | inl same ↦
            let e : topic ≡ t = (eq_iff topic t).0 same in
            let wanted_t : elem t keys ≡ true = subst (λ k. elem k keys ≡ true) e wanted in
            let asked = reenqueue-Asks inbox has_id trimmed in
            rw wanted_t (
              reenqueue_demand-keeps keys ts (reenqueue sid t inbox)
                (subst (λ k. Any (Asks sid topic) (reenqueue sid k inbox)) e asked))
        | inr differ ↦
            let later : elem topic ts ≡ true = rw differ at h in
            reenqueue_demand-Asks keys ts _ has_id trimmed wanted later
      ]

Any-trimmed :
    (sid topic : String) (ms : List Message) → Any (Asks sid topic) ms → strip topic ≡ topic
Any-trimmed sid topic [] a = elim a [ ]
Any-trimmed sid topic (m ∷ ms) (here (target, t)) = subst (λ k. strip k ≡ k) t (strip_idem m.topic)
Any-trimmed sid topic (m ∷ ms) (there a) = Any-trimmed sid topic ms a

-- The rules listen to no blank topic.
rule_keys_filled {ℓ} :
    {Float : Type ℓ} (topic : String) (rules : List (Rule Float))
    → elem topic (rule_keys rules) ≡ true
    → is_empty topic ≡ false
unfolding rule_keys elem
rule_keys_filled topic [] h = cc h
rule_keys_filled topic (r ∷ rs) h =
    elim (Bool-cases (r.policy == "demand" && not (is_empty r.inbox_key))) [
      | inr other ↦ rule_keys_filled topic rs (rw other at h)
      | inl demand ↦
          let found : (topic == r.inbox_key || elem topic (rule_keys rs)) ≡ true = rw demand at h in
          elim (Bool-cases (topic == r.inbox_key)) [
            | inl same ↦
                rw ((eq_iff topic r.inbox_key).0 same)
                  (second-not (r.policy == "demand") (is_empty r.inbox_key) demand)
            | inr differ ↦ rule_keys_filled topic rs (rw differ at found)
          ]
    ]
  where
    second-not : (a b : Bool) → (a && not b) ≡ true → b ≡ false
    second-not a b both = ground arith

module _ {ℓ} {Float : Type ℓ} (tools : Tools Float) (settings : Dict Value) ⦃py : Builtins⦄ where
  -- When a new node does not fit into the context, and the action answers with `on_over`, a demand for
  -- compaction is not lost: a topic that the step has consumed, and that one of its rules listens to, is
  -- among the topics that the step consumes when it is entered the next time. The step has an id.
  pub manage_context_budget-retry :
      (step : StepDef) (s : State) (topic on_ok on_over divider : String) (max : ℤ)
      (rules : List (Rule Float))
      → read_step tools settings step ≡ ok (on_ok, on_over, max, divider, rules)
      → new_blocks tools settings step max divider rules
          (record s { context_blocks = undivided divider s.context_blocks })
        ≡ ok none
      → is_empty (strip step.id) ≡ false
      → elem topic (rule_keys rules) ≡ true
      → elem topic (demand_topics_for_step step.id s.inbox_last_consumed) ≡ true
      → (let (answer, after) = manage_context_budget tools settings step s in
          (answer ≡ ok (text on_over))
          × (elem topic
                (demand_topics_for_step step.id (consume_inbox_for_step step.id after.inbox).0)
              ≡ true))
  unfolding manage_context_budget commit
  manage_context_budget-retry step s topic on_ok on_over divider max rules read over has_id wanted
        asked =
      let filled = rule_keys_filled topic rules wanted in
      let topics : List String = demand_topics_for_step step.id s.inbox_last_consumed in
      let trimmed =
        Any-trimmed step.id topic s.inbox_last_consumed
          (topics-Asks step.id topic filled s.inbox_last_consumed asked) in
      let inbox : List Message = reenqueue_demand step.id (rule_keys rules) topics s.inbox in
      let again =
        reenqueue_demand-Asks step.id topic filled (rule_keys rules) topics s.inbox has_id trimmed
          wanted asked in
      let found =
        Asks-topics step.id topic filled _ (consume-Asks step.id topic filled inbox has_id again) in
      rw (read, manage_context_budget) (rw (over, commit) (refl, found))
