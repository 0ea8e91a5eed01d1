-- ===== src/Callback/Policy/Laws.antt =====
-- The resolved policy: who decides, and that a stored policy is read back as it was.
use local_ai_rag.Prelude.{
  String, Bool, true, false, some, List, [], ◌∷◌, ◌≡◌, refl, if◌then◌else◌, ◌==◌, arith, All,
  eq_iff, Bool-cases, inl, inr, sym, subst, ◌↔◌, ◌⊎◌,
}
use local_ai_rag.Dict.{Dict, get}
use local_ai_rag.Value.{Value, Builtins, text, items, lookup, truthy}
use local_ai_rag.Pipeline.Validator.Rules.{elem}
use local_ai_rag.Callback.Policy.{
  CallbackPolicy, normalize_mode, normalize_content_set, resolve_callback_policy,
  callback_policy_from_dict, callback_policy_to_dict, global_callback_values,
  pipeline_callback_values, global_stage_visibility_values, pipeline_stage_visibility_values,
  resolve_stage_mode, resolve_enabled, policy_of, or_allowed, sorted_modes, content_modes_of,
  add_to_set,
}

-- A property of every element of a list holds of what `in` finds there.
elem-All : (P : String → Type 0) (x : String) (xs : List String) → All P xs → elem x xs ≡ true → P x
unfolding elem
elem-All P x [] a h = cc h
elem-All P x (y ∷ ys) (p, a) h = elim (Bool-cases (x == y)) [
  | inl same ↦ subst P (sym ((eq_iff x y).0 same)) p
  | inr other ↦ elem-All P x ys a (rw (other, elem) at h)
]

-- `str.lower` leaves the policy's own words alone: they are lower-case ASCII.
pub record LowerKeeps (py : Builtins) : Type 0 where
  pub words :
      All
        (λ w. py.lower w ≡ w)
        ("allowed" ∷ "forbidden" ∷ "explicit" ∷ "pipeline_decision" ∷ "pipeline_driven" ∷ "all"
          ∷ "documents_forbidden" ∷ [])

module _ ⦃py : Builtins⦄ where
  normalize_mode-elem :
      (values : List String) (v : Value)
      → elem "allowed" values ≡ true
      → elem (normalize_mode values v) values ≡ true
  unfolding normalize_mode
  normalize_mode-elem values v h = ground arith

elem-stage_branches :
    (a b c d e : Bool)
    → elem
        (if a
          then "forbidden"
          else if b
          then "allowed"
          else if c
          then "explicit"
          else if d
          then "explicit"
          else if e
          then "forbidden"
          else "allowed")
        global_stage_visibility_values
      ≡ true
unfolding elem
elem-stage_branches true b c d e = refl
elem-stage_branches false true c d e = refl
elem-stage_branches false false true d e = refl
elem-stage_branches false false false true e = refl
elem-stage_branches false false false false true = refl
elem-stage_branches false false false false false = refl

resolve_stage_mode-elem :
    (g p : String) → elem (resolve_stage_mode g p) global_stage_visibility_values ≡ true
resolve_stage_mode-elem g p =
    elem-stage_branches (g == "forbidden") (g == "allowed") (g == "explicit") (p == "explicit")
      (p == "forbidden")

-- A mode that a store of the policy gives back: reading what was written is the mode itself.
abbrev Rereads : ⦃py : Builtins⦄ → List String → String → Type 0
Rereads values w = normalize_mode values (text (or_allowed w)) ≡ w

module _ ⦃py : Builtins⦄ (k : LowerKeeps py) where
  global-Rereads : All (Rereads global_callback_values) global_callback_values
  unfolding normalize_mode
  global-Rereads = (rw k.words.0 refl, (rw k.words.1.1.1.0 refl, (rw k.words.1.0 refl, tt)))

  pipeline-Rereads : All (Rereads pipeline_callback_values) pipeline_callback_values
  unfolding normalize_mode
  pipeline-Rereads = (rw k.words.0 refl, (rw k.words.1.0 refl, tt))

  stage-Rereads : All (Rereads global_stage_visibility_values) global_stage_visibility_values
  unfolding normalize_mode
  stage-Rereads = (
    rw k.words.0 refl,
    (rw k.words.1.0 refl, (rw k.words.1.1.1.1.0 refl, (rw k.words.1.1.0 refl, tt))),
  )

  pipeline_stage-Rereads :
      All (Rereads pipeline_stage_visibility_values) pipeline_stage_visibility_values
  unfolding normalize_mode
  pipeline_stage-Rereads = (rw k.words.0 refl, (rw k.words.1.0 refl, (rw k.words.1.1.0 refl, tt)))

  -- The two sets of content modes that a resolved policy can have.
  content_rereads :
      (d : Bool)
      → (let modes =
            normalize_content_set (items (sorted_modes (content_modes_of d))) ("all" ∷ []) in
          if d then modes else add_to_set "documents_forbidden" modes)
        ≡ content_modes_of d
  unfolding normalize_content_set
  content_rereads true = rw k.words.1.1.1.1.1.0 refl
  content_rereads false = rw (k.words.1.1.1.1.1.0, k.words.1.1.1.1.1.1.0) refl

  -- A stored policy whose modes are values of their sets is read back as it was.
  reread :
      (e d : Bool) (g p s sp : String)
      → elem g global_callback_values ≡ true
      → elem p pipeline_callback_values ≡ true
      → elem s global_stage_visibility_values ≡ true
      → elem sp pipeline_stage_visibility_values ≡ true
      → (let policy : CallbackPolicy = record {
        enabled = e;
        include_documents = d;
        global_mode = g;
        pipeline_mode = p;
        stage_visibility_mode = s;
        stage_visibility_pipeline_mode = sp;
        content_modes = content_modes_of d;
      } in
          callback_policy_from_dict (some (callback_policy_to_dict policy)) ≡ policy)
  unfolding callback_policy_from_dict policy_of callback_policy_to_dict get lookup truthy
  reread e d g p s sp hg hp hs hsp =
      let eg =
        elem-All (Rereads global_callback_values) g global_callback_values global-Rereads hg in
      let ep =
        elem-All (Rereads pipeline_callback_values) p pipeline_callback_values pipeline-Rereads
          hp in
      let es =
        elem-All (Rereads global_stage_visibility_values) s global_stage_visibility_values
          stage-Rereads hs in
      let esp =
        elem-All (Rereads pipeline_stage_visibility_values) sp pipeline_stage_visibility_values
          pipeline_stage-Rereads hsp in
      let ec = content_rereads d in cc (eg, ep, es, esp, ec)

  -- What the pipeline resolves and stores in the trace broker's dictionary form is what the broker
  -- reads back, field by field, for all settings of the server and of the pipeline.
  pub resolve-roundtrip :
      (cfg pset : Dict Value)
      → callback_policy_from_dict
          (some (callback_policy_to_dict (resolve_callback_policy cfg pset)))
        ≡ resolve_callback_policy cfg pset
  unfolding resolve_callback_policy
  resolve-roundtrip cfg pset =
      reread _ _ _ _ _ _ (normalize_mode-elem global_callback_values (lookup "callback" cfg) refl)
        (normalize_mode-elem pipeline_callback_values (lookup "callback" pset) refl)
        (resolve_stage_mode-elem
          (normalize_mode global_stage_visibility_values (lookup "stages_visibility" cfg))
          (normalize_mode pipeline_stage_visibility_values (lookup "stages_visibility" pset)))
        (normalize_mode-elem pipeline_stage_visibility_values (lookup "stages_visibility" pset)
          refl)

-- Which of the two settings decides.
abbrev pub Enables : String → String → Type 0
Enables g p = (g ≡ "allowed") ⊎ ((g ≡ "pipeline_decision") × (p ≡ "allowed"))

enabled-then :
    (g p : String) → elem g global_callback_values ≡ true → resolve_enabled g p ≡ true → Enables g p
unfolding elem
enabled-then g p h e = elim (Bool-cases (g == "allowed")) [
  | inl is_allowed ↦ inl ((eq_iff g "allowed").0 is_allowed)
  | inr other ↦ inr (
      ground (
        arith,
        eq_iff g "allowed",
        eq_iff g "pipeline_decision",
        eq_iff p "allowed",
        eq_iff g "forbidden",
      ))
]

enabled-when : (g p : String) → Enables g p → resolve_enabled g p ≡ true
enabled-when g p (inl e) = rw e refl
enabled-when g p (inr (e, a)) = rw (e, a) refl

module _ ⦃py : Builtins⦄ where
  -- The callback is enabled exactly when the server's setting is read as "allowed", or when it is read
  -- as "pipeline_decision" and the pipeline's setting as "allowed": a server that says "forbidden" is
  -- never overridden.
  pub enabled-precedence :
      (cfg pset : Dict Value)
      → (resolve_callback_policy cfg pset).enabled ≡ true
        ↔ Enables
            (normalize_mode global_callback_values (lookup "callback" cfg))
            (normalize_mode pipeline_callback_values (lookup "callback" pset))
  unfolding resolve_callback_policy
  enabled-precedence cfg pset =
      let h = normalize_mode-elem global_callback_values (lookup "callback" cfg) refl in
      (enabled-then _ _ h, enabled-when _ _)
