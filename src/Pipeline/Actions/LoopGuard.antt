-- ===== src/Pipeline/Actions/LoopGuard.antt =====
-- actions/loop_guard.py: a step that allows a fixed number of turns.
use local_ai_rag.Prelude.{
  ℕ, zero, suc, ◌+◌, ◌≤◌, String, false, Option, none, some, ◌≡◌, ◌≢◌, refl, if◌then◌else◌, arith,
  ltb, or_default, eq_iff, eq_refl, inl, inr, Bool-cases, ap, ◌∙◌,
}
use local_ai_rag.Prelude.Int.{ℤ, pos, ◌+ℤ◌, ltb_ℤ}
use local_ai_rag.Text.{is_empty, strip}
use local_ai_rag.Dict.{Dict, get, put, get-put}
use local_ai_rag.Value.{Value, Builtins, lookup}
use local_ai_rag.Pipeline.Result.{Result, ok, err, value_error}
use local_ai_rag.Pipeline.Definitions.{StepDef}
use local_ai_rag.Pipeline.State.{State}
use local_ai_rag.Pipeline.Inbox.{Action}
use local_ai_rag.Pipeline.Budget.{as_int}

-- `counters.get(sid, 0)`
abbrev pub turns : String → State → ℤ
turns sid s = or_default (get sid s.loop_counters) (pos 0)

-- The step once `max_turn_loops` is known.
unfoldable pub guard_turn : ℤ → Action
unfolding strip lookup put get
guard_turn max_turns step s =
    let sid = strip step.id in
    let cur = turns sid s in
    if is_empty sid
    then (err (value_error "loop_guard: step.id is required"), s)
    else if ltb_ℤ cur max_turns
    then (
      ok (lookup "on_allow" step.raw),
      record s { loop_counters = put sid (cur +ℤ pos 1) s.loop_counters },
    )
    else (ok (lookup "on_deny" step.raw), s)

abbrev with_max : (ℤ → Action) → Result ℤ → Action
with_max guard (err e) step s = (err e, s)
with_max guard (ok n) step s = guard n step s

module _ ⦃py : Builtins⦄ where
  -- `int(settings.get("max_turn_loops", 4))`
  abbrev max_turn_loops : Option Value → Result ℤ
  max_turn_loops none = ok (pos 4)
  max_turn_loops (some v) = as_int v

  unfoldable pub loop_guard : Dict Value → Action
  unfolding guard_turn as_int get
  loop_guard settings = with_max guard_turn (max_turn_loops (get "max_turn_loops" settings))

-- The state after the guard has been entered n times in a row.
pub visits : ℤ → StepDef → ℕ → State → State
visits max_turns step zero s = s
visits max_turns step (suc n) s = visits max_turns step n (guard_turn max_turns step s).1

-- A turn is counted while the count is below the maximum.
guard_turn-turns :
    (m c : ℕ) (step : StepDef) (s : State)
    → is_empty (strip step.id) ≡ false
    → turns (strip step.id) s ≡ pos c
    → turns (strip step.id) (guard_turn (pos m) step s).1 ≡ pos (if ltb c m then c + 1 else c)
unfolding guard_turn ◌+ℤ◌
guard_turn-turns m c step s e h = ground (
  arith,
  get-put (strip step.id) (strip step.id) (turns (strip step.id) s +ℤ pos 1) s.loop_counters,
  eq_refl (strip step.id),
)

guard_turn-answer :
    (m c : ℕ) (step : StepDef) (s : State)
    → is_empty (strip step.id) ≡ false
    → turns (strip step.id) s ≡ pos c
    → (guard_turn (pos m) step s).0
      ≡ ok (if ltb c m then lookup "on_allow" step.raw else lookup "on_deny" step.raw)
unfolding guard_turn
guard_turn-answer m c step s e h = ground arith

visits-turns :
    (m c n : ℕ) (step : StepDef) (s : State)
    → is_empty (strip step.id) ≡ false
    → turns (strip step.id) s ≡ pos c
    → c ≤ m
    → turns (strip step.id) (visits (pos m) step n s) ≡ pos (if ltb (c + n) m then c + n else m)
unfolding visits
visits-turns m c zero step s e h le = h ∙ ap pos (ground arith)
visits-turns m c (suc n) step s e h le = elim (Bool-cases (ltb c m)) [
  | inl more ↦
      visits-turns m (c + 1) n step (guard_turn (pos m) step s).1 e
        (guard_turn-turns m c step s e h ∙ ap pos (rw more refl)) (ground arith)
      ∙ ap pos (ground arith)
  | inr enough ↦
      visits-turns m c n step (guard_turn (pos m) step s).1 e
        (guard_turn-turns m c step s e h ∙ ap pos (rw enough refl)) le
      ∙ ap pos (ground arith)
]

-- A guard that has counted no turn yet allows exactly its first `m` visits: after n visits it
-- answers with `on_allow` while n < m, and with `on_deny` from then on. The step has an id.
pub loop_guard-visits :
    (m n : ℕ) (step : StepDef) (s : State)
    → is_empty (strip step.id) ≡ false
    → get (strip step.id) s.loop_counters ≡ none
    → (guard_turn (pos m) step (visits (pos m) step n s)).0
      ≡ ok (if ltb n m then lookup "on_allow" step.raw else lookup "on_deny" step.raw)
loop_guard-visits m n step s e h =
    guard_turn-answer m (if ltb (0 + n) m then 0 + n else m) step (visits (pos m) step n s) e
      (visits-turns m 0 n step s e (rw h refl) (omega arith))
    ∙ ground arith

-- A visit leaves the counters of the other steps alone.
pub guard_turn-others :
    (max_turns : ℤ) (step : StepDef) (s : State) (sid : String)
    → sid ≢ strip step.id
    → get sid (guard_turn max_turns step s).1.loop_counters ≡ get sid s.loop_counters
unfolding guard_turn
guard_turn-others max_turns step s sid ne = ground (
  arith,
  get-put (strip step.id) sid (turns (strip step.id) s +ℤ pos 1) s.loop_counters,
  eq_iff (strip step.id) sid,
)
