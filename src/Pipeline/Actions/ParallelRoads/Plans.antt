-- ===== src/Pipeline/Actions/ParallelRoads/Plans.antt =====
-- `_normalize_snapshots` of a state that a road has left, where it was possible for the run's first state.
use local_ai_rag.Prelude.{
  String, Bool, true, false, not, ◌||◌, Option, none, some, List, [], ◌∷◌, ◌≡◌, refl, arith, ◌==◌,
  Bool-cases, inl, inr, All, subst,
}
use local_ai_rag.Text.{is_empty, strip, strip_opt, strip_idem}
use local_ai_rag.Dict.{Dict}
use local_ai_rag.Value.{Value, Builtins, object, field, to_dict, str, truthy, str_or_empty}
use local_ai_rag.Pipeline.Result.{ok, require, require-eq-ok, >>=-eq-ok, ok-injective}
use local_ai_rag.Pipeline.State.{State}
use local_ai_rag.Pipeline.Actions.ParallelRoads.{
  resolve_snapshot_ref, or_missing, normalize_items, normalize_snapshots,
}

-- What a snapshot reference can mean in the first state, it can mean in the second.
pub record StillNames (first s : State) : Type 0 where
  pub own :
      is_empty (strip_opt first.snapshot_id) ≡ false → is_empty (strip_opt s.snapshot_id) ≡ false
  pub own_b : s.snapshot_id_b ≡ first.snapshot_id_b

or_missing-eq-ok :
    (sid message : String) {out : String}
    → or_missing sid message ≡ ok out
    → (is_empty sid ≡ false) × (sid ≡ out)
or_missing-eq-ok sid message h = ground arith

filled : (a b : Bool) → not (a || b) ≡ true → (a ≡ false) × (b ≡ false)
filled a b h = ground arith

-- A reference that is resolved is resolved again, to a text that is not empty.
resolve-again :
    (v sid : String) (first s : State)
    → StillNames first s
    → resolve_snapshot_ref v first ≡ ok sid
    → is_empty sid ≡ false
    → (again : String) × (resolve_snapshot_ref v s ≡ ok again) × (is_empty again ≡ false)
unfolding resolve_snapshot_ref
resolve-again v sid first s n h e =
    elim (Bool-cases (v == "${snapshot_id}" || v == "$snapshot_id" || v == "snapshot_id")) [
      | inl own ↦
          let named = or_missing-eq-ok _ _ (rw (own, resolve_snapshot_ref) at h) in
          let still = n.own named.0 in
          (strip_opt s.snapshot_id, rw (own, still, resolve_snapshot_ref) refl, still)
      | inr other ↦
          elim (Bool-cases
            (v == "${snapshot_id_b}" || v == "$snapshot_id_b" || v == "snapshot_id_b")) [
              | inl own_b ↦
                  let named = or_missing-eq-ok _ _ (rw (other, own_b, resolve_snapshot_ref) at h) in
                  let still : is_empty (strip_opt s.snapshot_id_b) ≡ false = rw n.own_b named.0 in
                  (
                    strip_opt s.snapshot_id_b,
                    rw (other, own_b, still, resolve_snapshot_ref) refl,
                    still,
                  )
              | inr literal ↦
                  let same : v ≡ sid =
                    ok-injective (rw (other, literal, resolve_snapshot_ref) at h) in
                  (v, rw (other, literal, resolve_snapshot_ref) refl, rw same e)
            ]
    ]

-- A stripped text stays what it is.
strip_opt-strip : (o : Option String) → strip (strip_opt o) ≡ strip_opt o
unfolding strip_opt strip
strip_opt-strip none = refl
strip_opt-strip (some s) = strip_idem s

resolved-strip :
    (v sid : String) (s : State) → strip v ≡ v → resolve_snapshot_ref v s ≡ ok sid → strip sid ≡ sid
unfolding resolve_snapshot_ref
resolved-strip v sid s t h =
    elim (Bool-cases (v == "${snapshot_id}" || v == "$snapshot_id" || v == "snapshot_id")) [
      | inl own ↦
          let named = or_missing-eq-ok _ _ (rw (own, resolve_snapshot_ref) at h) in
          subst (λ x. strip x ≡ x) named.1 (strip_opt-strip s.snapshot_id)
      | inr other ↦
          elim (Bool-cases
            (v == "${snapshot_id_b}" || v == "$snapshot_id_b" || v == "snapshot_id_b")) [
              | inl own_b ↦
                  let named = or_missing-eq-ok _ _ (rw (other, own_b, resolve_snapshot_ref) at h) in
                  subst (λ x. strip x ≡ x) named.1 (strip_opt-strip s.snapshot_id_b)
              | inr literal ↦
                  subst (λ x. strip x ≡ x)
                    (ok-injective (rw (other, literal, resolve_snapshot_ref) at h)) t
            ]
    ]

module _ ⦃py : Builtins⦄ where
  strip-str_or_empty : (v : Value) → strip (str_or_empty v) ≡ str_or_empty v
  unfolding str_or_empty
  strip-str_or_empty v = elim (Bool-cases (truthy v)) [
    | inl t ↦ rw (t, str_or_empty) (strip_idem (str v))
    | inr f ↦ rw (f, str_or_empty) refl
  ]

  -- The snapshots of a plan are named.
  abbrev pub IsNamed : String × String → Type 0
  IsNamed r = is_empty (strip r.1) ≡ false

  normalize_items-cons :
      (k sid : String) (v : Value) (items : Dict Value) (s : State) (plan : List (String × String))
      → resolve_snapshot_ref (str_or_empty v) s ≡ ok sid
      → is_empty (strip k) ≡ false
      → is_empty sid ≡ false
      → normalize_items items s ≡ ok plan
      → normalize_items ((k, v) ∷ items) s ≡ ok ((strip k, sid) ∷ plan)
  unfolding normalize_items
  normalize_items-cons k sid v items s plan r named given later =
      rw (r, named, given, later, normalize_items) refl

  normalize_items-again :
      (items : Dict Value) (first s : State) (plan : List (String × String))
      → StillNames first s
      → normalize_items items first ≡ ok plan
      → ((again : List (String × String)) × (normalize_items items s ≡ ok again)) × All IsNamed plan
  unfolding normalize_items
  normalize_items-again [] first s plan n h = (([], refl), subst (All IsNamed) (ok-injective h) tt)
  normalize_items-again ((k, v) ∷ items) first s plan n h =
      let (sid, r, h₁) = >>=-eq-ok (resolve_snapshot_ref (str_or_empty v) first) _ h in
      let (_, g, h₂) =
        >>=-eq-ok
          (require (not (is_empty (strip k) || is_empty sid))
            "snapshot keys and values must be non-empty strings")
          _ h₁ in
      let (rest, later, h₃) = >>=-eq-ok (normalize_items items first) _ h₂ in
      let (named, given) = filled (is_empty (strip k)) (is_empty sid) (require-eq-ok _ _ g) in
      let (sid', r', given') = resolve-again (str_or_empty v) sid first s n r given in
      let ((again, later'), all_named) = normalize_items-again items first s rest n later in
      let stays = resolved-strip (str_or_empty v) sid first (strip-str_or_empty v) r in
      (
        (
          (strip k, sid') ∷ again,
          normalize_items-cons k sid' v items s again r' named given' later',
        ),
        subst (All IsNamed) (ok-injective h₃) (rw stays given, all_named),
      )

  pub normalize_snapshots-again :
      (v : Value) (first s : State) (plan : List (String × String))
      → StillNames first s
      → normalize_snapshots v first ≡ ok plan
      → ((again : List (String × String)) × (normalize_snapshots v s ≡ ok again)) × All IsNamed plan
  normalize_snapshots-again (object (field k v fs)) first s plan n h =
      normalize_items-again (to_dict (field k v fs)) first s plan n h
  normalize_snapshots-again v first s plan n h = cc h
