-- ===== src/Access/Consultants/Laws.antt =====
-- server/pipelines/pipeline_access.py: a restricted user is shown allowed consultants only.
use local_ai_rag.Prelude.{
  String, some, List, [], ◌∷◌, Bool, true, false, not, ◌&&◌, keep_if, any_of, ◌≡◌, refl, ◌⊎◌, inl,
  inr, Bool-cases, Option-cases, All, is_some, eq_refl, arith, subst, sym,
}
use local_ai_rag.Prelude.Any.{Any, here, there, map-All}
use local_ai_rag.Text.{is_empty}
use local_ai_rag.Value.{
  plain_text, Value, items, object, nil, Fields, Values, as_dict, to_list, to_dict, lookup,
  value_or, Builtins,
}
use local_ai_rag.Access.Consultants.{
  has_id, is_allowed, default_id, first_id, filter_consultants, restrict,
}

module _ {ℓ} {A : Type ℓ} (p : A → Bool) where
  keep_if-All : (xs : List A) → All (λ x. p x ≡ true) (keep_if p xs)
  unfolding keep_if
  keep_if-All [] = tt
  keep_if-All (x ∷ xs) = elim (Bool-cases (p x)) [
    | inl kept ↦ rw kept (kept, keep_if-All xs)
    | inr dropped ↦ rw dropped (keep_if-All xs)
  ]

  -- An element without the property is dropped, and every other is kept.
  keep_if_complete : (xs : List A) → All (λ x. (p x ≡ false) ⊎ Any (λ y. y ≡ x) (keep_if p xs)) xs
  unfolding keep_if
  keep_if_complete [] = tt
  keep_if_complete (x ∷ xs) = elim (Bool-cases (p x)) [
    | inl kept ↦
        let e : keep_if p (x ∷ xs) ≡ x ∷ keep_if p xs = rw kept refl in
        subst (λ ys. All (λ c. (p c ≡ false) ⊎ Any (λ y. y ≡ c) ys) (x ∷ xs)) (sym e)
          (inr (here refl), map-All later xs (keep_if_complete xs))
    | inr dropped ↦
        let e : keep_if p (x ∷ xs) ≡ keep_if p xs = rw dropped refl in
        subst (λ ys. All (λ c. (p c ≡ false) ⊎ Any (λ y. y ≡ c) ys) (x ∷ xs)) (sym e)
          (inl dropped, keep_if_complete xs)
  ]
    where
      later :
          (c : A)
          → (p c ≡ false) ⊎ Any (λ y. y ≡ c) (keep_if p xs)
          → (p c ≡ false) ⊎ Any (λ y. y ≡ c) (x ∷ keep_if p xs)
      later c (inl out) = inl out
      later c (inr a) = inr (there a)

  any_of-Any : (xs : List A) → any_of p xs ≡ true → Any (λ x. p x ≡ true) xs
  unfolding any_of
  any_of-Any [] h = cc h
  any_of-Any (x ∷ xs) h = elim (Bool-cases (p x)) [
    | inl hit ↦ here hit
    | inr miss ↦ there (any_of-Any xs (rw miss at h))
  ]

both-true : (a b : Bool) → (a && b) ≡ true → (a ≡ true) × (b ≡ true)
both-true a b h = ground arith

not-true : {b : Bool} → not b ≡ true → b ≡ false
not-true h = ground arith

module _ ⦃py : Builtins⦄ where
  -- The default of a list is empty, or one of its consultants has it.
  abbrev pub IsDefault : List Value → String → Type 0
  IsDefault consultants id = (id ≡ "") ⊎ Any (λ c. has_id id c ≡ true) consultants

  first_id-IsDefault :
      (consultants : List Value)
      → All (λ c. is_some (as_dict c) ≡ true) consultants
      → (id : String) × (first_id consultants ≡ some id) × IsDefault consultants id
  unfolding has_id
  first_id-IsDefault [] objects = ("", refl, inl refl)
  first_id-IsDefault (c ∷ cs) (object_c, objects) = elim (Option-cases (as_dict c)) [
    | inl none_c ↦ cc (rw none_c at object_c)
    | inr (d, found) ↦
        let id : String = plain_text (lookup "id" d) in
        let same : has_id id c ≡ true = rw (found, has_id) (eq_refl id) in
        (id, rw (found, first_id) refl, inr (here same))
  ]

  default_id-IsDefault :
      (wanted : String) (consultants : List Value)
      → All (λ c. is_some (as_dict c) ≡ true) consultants
      → (id : String) × (default_id wanted consultants ≡ some id) × IsDefault consultants id
  unfolding default_id
  default_id-IsDefault wanted consultants objects =
      elim (Bool-cases (not (is_empty wanted) && any_of (has_id wanted) consultants)) [
        | inr other ↦ rw other (first_id-IsDefault consultants objects)
        | inl hit ↦
            let (filled, known) =
              both-true (not (is_empty wanted)) (any_of (has_id wanted) consultants) hit in
            rw (hit, not-true filled)
              (wanted, refl, inr (any_of-Any (has_id wanted) consultants known))
      ]

  allowed-object :
      (allowed : List String) (c : Value) → is_allowed allowed c ≡ true → is_some (as_dict c) ≡ true
  unfolding is_allowed
  allowed-object allowed c h = elim (Option-cases (as_dict c)) [
    | inl none_c ↦ cc (rw (none_c, is_allowed) at h)
    | inr (d, found) ↦ rw found refl
  ]

  -- For a restricted user `filter_consultants` always answers: every consultant it shows is an object
  -- whose pipeline is allowed, every such consultant is shown, and the default id is empty or the id of a
  -- consultant that is shown. The `consultants` entry of the templates is missing or a list.
  pub filter_consultants-restricted :
      (templates : Fields) (consultants : Values) (allowed : List String)
      → value_or (lookup "consultants" (to_dict templates)) (items nil) ≡ items consultants
      → (shown : List Value) × (id : String) × (filter_consultants (object templates) (some allowed)
          ≡ some (shown, id))
        × All (λ c. is_allowed allowed c ≡ true) shown
        × All (λ c. (is_allowed allowed c ≡ false) ⊎ Any (λ x. x ≡ c) shown) (to_list consultants)
        × IsDefault shown id
  unfolding filter_consultants restrict
  filter_consultants-restricted templates consultants allowed given =
      let all : List Value = to_list consultants in
      let shown : List Value = keep_if (is_allowed allowed) all in
      let only = keep_if-All (is_allowed allowed) all in
      let wanted : String = plain_text (lookup "defaultConsultantId" (to_dict templates)) in
      let (id, answer, good) =
        default_id-IsDefault wanted shown (map-All (allowed-object allowed) shown only) in
      (
        shown,
        id,
        rw (given, filter_consultants) (rw answer refl),
        only,
        keep_if_complete (is_allowed allowed) all,
        good,
      )
