-- ===== src/Pipeline/Actions/ParallelRoads/Laws.antt =====
-- Fork and merge between them visit every snapshot of the plan once, in order, and leave the run's
-- own snapshots as they found them.
use local_ai_rag.Prelude.{
  ℕ, zero, suc, ◌≡◌, ◌≢◌, refl, String, true, false, Option, none, some, List, [], ◌∷◌, arith,
  length, get_elem?, ltb, map, drop, ap, ◌∙◌, sym, All, Bool-cases, inl, inr,
}
use local_ai_rag.Text.{is_empty, strip, strip_opt}
use local_ai_rag.Dict.{put}
use local_ai_rag.Value.{Value, Builtins, Fields, object, field, text, lookup, str_or_empty}
use local_ai_rag.Pipeline.Result.{Result, ok, err}
use local_ai_rag.Pipeline.Definitions.{StepDef}
use local_ai_rag.Pipeline.State.{State, Roads}
use local_ai_rag.Pipeline.Actions.ParallelRoads.{
  fork_road, fork_action, close_road, merge_action, start_roads, normalize_snapshots,
}
use local_ai_rag.Pipeline.Actions.ParallelRoads.Plans.{
  StillNames, IsNamed, normalize_snapshots-again,
}

-- The plan that a state is on, how far it is, and the snapshots that the run began with. The merge
-- knows the fork to go back to.
pub record OnPlan (plan : List (String × String)) (own own_b : Option String) (k : ℕ)
    (roads : Roads) : Type 0 where
  pub snapshots : roads.snapshots ≡ plan
  pub index : roads.index ≡ k
  pub original : roads.original_snapshot_id ≡ own
  pub original_b : roads.original_snapshot_id_b ≡ own_b
  pub fork_named : is_empty (strip roads.fork_step_id) ≡ false

module _ (plan : List (String × String)) (own own_b : Option String) where
  -- What the fork does where the roads that it has, or would start, are on the plan.
  fork-road :
      (k : ℕ) (snapshots : List (String × String)) (search name sid : String) (step : StepDef)
      (s : State)
      → OnPlan plan own own_b k (start_roads step s snapshots search s.parallel_roads)
      → get_elem? plan k ≡ some (name, sid)
      → (roads : Roads) × OnPlan plan own own_b k roads
        × (fork_road snapshots search step s
            ≡ (ok (text search), record s { snapshot_id = some sid; parallel_roads = some roads }))
  unfolding fork_road
  fork-road k snapshots search name sid step s o g =
      let roads = start_roads step s snapshots search s.parallel_roads in
      let e : get_elem? roads.snapshots roads.index ≡ some (name, sid) =
        rw (o.snapshots, o.index) g in
      (
        record roads { current = some (name, sid) },
        record {
          snapshots = o.snapshots;
          index = o.index;
          original = o.original;
          original_b = o.original_b;
          fork_named = o.fork_named;
        },
        rw (e, fork_road) refl,
      )

  -- How a road is closed: between the roads the snapshots stay, and behind the last one the run's own are back.
  abbrev Closed : ℕ → State → Result Value × State → Type 0
  Closed k s r =
      (v : Value) × (r.0 ≡ ok v)
      × ((roads : Roads) × (r.1.parallel_roads ≡ some roads) × OnPlan plan own own_b (suc k) roads)
      × (ltb (suc k) (length plan) ≡ true
          → (r.1.snapshot_id ≡ s.snapshot_id) × (r.1.snapshot_id_b ≡ s.snapshot_id_b))
      × (ltb (suc k) (length plan) ≡ false → (r.1.snapshot_id ≡ own) × (r.1.snapshot_id_b ≡ own_b))

  close-Closed :
      (k : ℕ) (on_done : Value) (blocks : List String) (name : String) (s : State) (roads : Roads)
      → OnPlan plan own own_b k roads
      → Closed k s (close_road on_done blocks name s roads)
  unfolding close_road
  close-Closed k on_done blocks name s roads o =
      let merged : Roads = record roads {
        results = put name blocks roads.results;
        index = suc roads.index;
      } in
      let on : OnPlan plan own own_b (suc k) merged = record {
        snapshots = o.snapshots;
        index = ap suc o.index;
        original = o.original;
        original_b = o.original_b;
        fork_named = o.fork_named;
      } in
      elim (Bool-cases (ltb (suc roads.index) (length roads.snapshots))) [
        | inl more ↦
            let more' : ltb (suc k) (length plan) ≡ true = rw (o.snapshots, o.index) at more in
            rw (more, o.fork_named, close_road)
              (
                text (strip roads.fork_step_id),
                refl,
                (merged, refl, on),
                (λ _. (refl, refl)),
                λ last. cc (rw last at more'),
              )
        | inr last ↦
            let last' : ltb (suc k) (length plan) ≡ false = rw (o.snapshots, o.index) at last in
            rw (last, close_road)
              (
                on_done,
                refl,
                (merged, refl, on),
                (λ more. cc (rw more at last')),
                λ _. (o.original, o.original_b),
              )
      ]

-- The two actions and the steps between them, as the engine runs them; an exception ends the passes.
module _ ⦃py : Builtins⦄ (between : State → State) (fork merge : StepDef) where
  abbrev after_merge : Option String → Result Value × State → Result (Option String) × State
  after_merge sid (err e, s) = (err e, s)
  after_merge sid (ok v, s) = (ok sid, s)

  abbrev after_fork : Result Value × State → Result (Option String) × State
  unfolding merge_action
  after_fork (err e, s) = (err e, s)
  after_fork (ok v, s) = after_merge s.snapshot_id (merge_action merge (between s))

  -- One pass, with the snapshot that the steps between see.
  unfoldable pub pass_road : State → Result (Option String) × State
  unfolding fork_action merge_action
  pass_road s = after_fork (fork_action fork s)

  abbrev joined :
      Result (Option String)
      → State
      → Result (List (Option String)) × State
      → Result (List (Option String)) × State
  joined (err e) s later = (err e, s)
  joined (ok sid) s (err e, s') = (err e, s')
  joined (ok sid) s (ok sids, s') = (ok (sid ∷ sids), s')

  -- n passes, with the snapshots that the steps between see, and the state behind the last.
  unfoldable pub passes : ℕ → State → Result (List (Option String)) × State
  unfolding pass_road
  passes zero s = (ok [], s)
  passes (suc n) s = let (seen, s') = pass_road s in let later = passes n s' in joined seen s' later

-- The steps between fork and merge leave the plan and the snapshots alone.
pub record LeavesRoads (between : State → State) : Type 0 where
  pub roads : (s : State) → (between s).parallel_roads ≡ s.parallel_roads
  pub own : (s : State) → (between s).snapshot_id ≡ s.snapshot_id
  pub own_b : (s : State) → (between s).snapshot_id_b ≡ s.snapshot_id_b

drop-get :
    {A : Type 0} (xs ys : List A) (x : A) (k : ℕ)
    → drop k xs ≡ x ∷ ys
    → (get_elem? xs k ≡ some x) × (drop (suc k) xs ≡ ys)
drop-get [] ys x zero h = cc h
drop-get [] ys x (suc k) h = cc h
drop-get (z ∷ zs) ys x zero h = (ground arith, ground arith)
drop-get (z ∷ zs) ys x (suc k) h = drop-get zs ys x k h

drop-length : {A : Type 0} (xs : List A) (x : A) (k : ℕ) → drop k xs ≡ x ∷ [] → suc k ≡ length xs
drop-length [] x zero h = cc h
drop-length [] x (suc k) h = cc h
drop-length (z ∷ []) x zero h = refl
drop-length (z ∷ y ∷ zs) x zero h = cc h
drop-length (z ∷ zs) x (suc k) h = ap suc (drop-length zs x k h)

drop-ltb :
    {A : Type 0} (xs ys : List A) (x y : A) (k : ℕ)
    → drop k xs ≡ x ∷ y ∷ ys
    → ltb (suc k) (length xs) ≡ true
drop-ltb [] ys x y zero h = cc h
drop-ltb [] ys x y (suc k) h = cc h
drop-ltb (z ∷ []) ys x y zero h = cc h
drop-ltb (z ∷ w ∷ zs) ys x y zero h = ground arith
drop-ltb (z ∷ zs) ys x y (suc k) h = let deeper = drop-ltb zs ys x y k h in ground arith

module _ ⦃py : Builtins⦄ (between : State → State) (l : LeavesRoads between) (first : State)
    (plan : List (String × String)) (fork merge : StepDef) (key : String) (label : Value)
    (labels : Fields) (planned : normalize_snapshots (lookup "snapshots" fork.raw) first ≡ ok plan)
    (searches : is_empty (str_or_empty (lookup "search_action" fork.raw)) ≡ false)
    (labelled : lookup "snapshots" merge.raw ≡ object (field key label labels)) where
  -- A state in which the next pass begins: the fork can read its snapshots again, and the roads that it has,
  -- or would start, are on the plan.
  abbrev Ready : ℕ → State → Type 0
  Ready k s =
      StillNames first s
      × ((snapshots : List (String × String))
          → normalize_snapshots (lookup "snapshots" fork.raw) s ≡ ok snapshots
          → OnPlan plan first.snapshot_id first.snapshot_id_b k (
              start_roads fork s snapshots (str_or_empty (lookup "search_action" fork.raw))
                s.parallel_roads))

  merge-Closed :
      (k : ℕ) (name sid : String) (s : State) (roads : Roads)
      → s.parallel_roads ≡ some roads
      → OnPlan plan first.snapshot_id first.snapshot_id_b k roads
      → get_elem? plan k ≡ some (name, sid)
      → Closed plan first.snapshot_id first.snapshot_id_b k s (merge_action merge s)
  unfolding merge_action
  merge-Closed k name sid s roads p o g =
      let e : get_elem? roads.snapshots roads.index ≡ some (name, sid) =
        rw (o.snapshots, o.index) g in
      rw (p, labelled, e, merge_action)
        (close-Closed plan first.snapshot_id first.snapshot_id_b k _ _ name s roads o)

  -- What a pass leaves.
  abbrev Passed : ℕ → String → State → Result (Option String) × State → Type 0
  Passed k sid s r =
      (r.0 ≡ ok (some sid))
      × (ltb (suc k) (length plan) ≡ true → Ready (suc k) r.1)
      × (ltb (suc k) (length plan) ≡ false
          → (r.1.snapshot_id ≡ first.snapshot_id) × (r.1.snapshot_id_b ≡ first.snapshot_id_b))

  after_merge-Passed :
      (k : ℕ) (sid : String) (s s₁ : State) (r : Result Value × State)
      → is_empty (strip sid) ≡ false
      → s₁.snapshot_id ≡ some sid
      → s₁.snapshot_id_b ≡ first.snapshot_id_b
      → Closed plan first.snapshot_id first.snapshot_id_b k s₁ r
      → Passed k sid s (after_merge between fork merge (some sid) r)
  unfolding strip_opt
  after_merge-Passed k sid s s₁ (err e, s₂) named own own_b (v, h, _, _, _) = cc h
  after_merge-Passed k sid s s₁ (ok w, s₂) named own own_b (v, h, (roads, p, o), more, last) = (
    refl,
    (λ m.
        let (kept, kept_b) = more m in
        let named' : is_empty (strip_opt s₂.snapshot_id) ≡ false = rw (kept ∙ own) named in
        (record { own = λ _. named'; own_b = kept_b ∙ own_b }, λ snapshots _. rw p o)),
    last,
  )

  pass-Passed :
      (k : ℕ) (name sid : String) (s : State)
      → Ready k s
      → get_elem? plan k ≡ some (name, sid)
      → is_empty (strip sid) ≡ false
      → Passed k sid s (pass_road between fork merge s)
  unfolding pass_road fork_action
  pass-Passed k name sid s (still, on) g named =
      let search = str_or_empty (lookup "search_action" fork.raw) in
      let ((again, read), _) =
        normalize_snapshots-again (lookup "snapshots" fork.raw) first s plan still planned in
      let (roads, o, forked) =
        fork-road plan first.snapshot_id first.snapshot_id_b k again search name sid fork s
          (on again read) g in
      let s₁ : State = record s { snapshot_id = some sid; parallel_roads = some roads } in
      let closed = merge-Closed k name sid (between s₁) roads (l.roads s₁) o g in
      let done =
        after_merge-Passed k sid s (between s₁) (merge_action merge (between s₁)) named (l.own s₁)
          (l.own_b s₁ ∙ still.own_b) closed in
      rw (read, searches, forked, pass_road, fork_action) done

  -- All passes succeed, and what they see are the snapshots of the rest of the plan.
  passes_from :
      (rest : List (String × String)) (k : ℕ) (s : State)
      → Ready k s
      → All IsNamed rest
      → drop k plan ≡ rest
      → rest ≢ []
      → ((passes between fork merge (length rest) s).0 ≡ ok (map (λ r. some (r.1)) rest))
        × ((passes between fork merge (length rest) s).1.snapshot_id ≡ first.snapshot_id)
        × ((passes between fork merge (length rest) s).1.snapshot_id_b ≡ first.snapshot_id_b)
  unfolding passes
  passes_from [] k s a n d ne = absurd (ne refl)
  passes_from ((name, sid) ∷ []) k s a (n, _) d ne =
      let (g, d') = drop-get plan [] (name, sid) k d in
      let (seen, _, last) = pass-Passed k name sid s a g n in
      let end_of = drop-length plan (name, sid) k d in
      let over : ltb (suc k) (length plan) ≡ false = rw (sym end_of) (ground arith) in
      let (x, y) = last over in rw seen (refl, x, y)
  passes_from ((name, sid) ∷ next ∷ rest) k s a (n, ns) d ne =
      let (g, d') = drop-get plan (next ∷ rest) (name, sid) k d in
      let (seen, more, _) = pass-Passed k name sid s a g n in
      let ready = more (drop-ltb plan rest (name, sid) next k d) in
      let (x, y, z) =
        passes_from (next ∷ rest) (suc k) (pass_road between fork merge s).1 ready ns d'
          (λ e. cc e) in
      joined-ok (pass_road between fork merge s).0 (pass_road between fork merge s).1
        (passes between fork merge (length (next ∷ rest)) (pass_road between fork merge s).1) sid
        (map (λ r. some (r.1)) (next ∷ rest)) seen x y z
    where
      joined-ok :
          (r : Result (Option String)) (s₁ : State) (later : Result (List (Option String)) × State)
          (sid : String) (sids : List (Option String))
          → r ≡ ok (some sid)
          → later.0 ≡ ok sids
          → later.1.snapshot_id ≡ first.snapshot_id
          → later.1.snapshot_id_b ≡ first.snapshot_id_b
          → ((joined between fork merge r s₁ later).0 ≡ ok (some sid ∷ sids))
            × ((joined between fork merge r s₁ later).1.snapshot_id ≡ first.snapshot_id)
            × ((joined between fork merge r s₁ later).1.snapshot_id_b ≡ first.snapshot_id_b)
      joined-ok (err e) s₁ later sid sids h x y z = cc h
      joined-ok (ok t) s₁ (err e, s₂) sid sids h x y z = cc x
      joined-ok (ok t) s₁ (ok ts, s₂) sid sids h x y z = (cc (h, x), y, z)

-- From a state with no roads, in which the fork can read its snapshots, one pass of fork, the steps between, and
-- merge for each snapshot of the plan lets the steps between see each snapshot of the plan once, in the plan's
-- order, and leaves both of the run's own snapshots as they were; no pass raises, although the fork reads
-- its snapshots again in each. The fork step has an id and names the search step, the steps between are held
-- to leave the roads and the snapshots alone, and the merge step has a non-empty mapping of labels.
pub roads_visited :
    ⦃py : Builtins⦄ (between : State → State) (fork merge : StepDef) (plan : List (String × String))
    (s : State) (key : String) (label : Value) (labels : Fields)
    → LeavesRoads between
    → normalize_snapshots (lookup "snapshots" fork.raw) s ≡ ok plan
    → is_empty (str_or_empty (lookup "search_action" fork.raw)) ≡ false
    → is_empty (strip fork.id) ≡ false
    → lookup "snapshots" merge.raw ≡ object (field key label labels)
    → s.parallel_roads ≡ none
    → plan ≢ []
    → ((passes between fork merge (length plan) s).0 ≡ ok (map (λ r. some (r.1)) plan))
      × ((passes between fork merge (length plan) s).1.snapshot_id ≡ s.snapshot_id)
      × ((passes between fork merge (length plan) s).1.snapshot_id_b ≡ s.snapshot_id_b)
roads_visited between fork merge plan s key label labels l planned searches named labelled p ne =
    let still : StillNames s s = record { own = λ h. h; own_b = refl } in
    let (_, all_named) =
      normalize_snapshots-again (lookup "snapshots" fork.raw) s s plan still planned in
    passes_from between l s plan fork merge key label labels planned searches labelled plan 0 s
      (
        still,
        λ snapshots read.
            let same : plan ≡ snapshots = cc (planned, read) in
            rw p (record {
              snapshots = sym same;
              index = refl;
              original = refl;
              original_b = refl;
              fork_named = named;
            }),
      )
      all_named refl ne
