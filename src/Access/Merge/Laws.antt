-- ===== src/Access/Merge/Laws.antt =====
-- server/auth/user_access.py: the merged rights are those that the groups grant, each once.
use local_ai_rag.Prelude.{
  String, ◌≡◌, ◌≢◌, refl, sym, ◌↔◌, inl, inr, true, false, ◌||◌, some, List, [], ◌∷◌, Bool-cases,
  Option-cases, All, ◌==◌, eq_iff, arith, subst,
}
use local_ai_rag.Prelude.Any.{
  Any, here, there, map-Any, map-All, flat_map, Any-flat_map, flat_map-Any,
}
use local_ai_rag.Text.{is_empty, strip}
use local_ai_rag.Dict.{Dict, get}
use local_ai_rag.Pipeline.Validator.Rules.{elem}
use local_ai_rag.Access.Policies.{GroupPolicy}
use local_ai_rag.Access.Merge.{unique_after, unique_preserve_order, granted_by, merge_rights}

-- A text names `x`: it is `x` once it is stripped, and not blank.
abbrev pub Names : String → String → Type 0
Names x item = (strip item ≡ x) × (is_empty x ≡ false)

-- No text comes twice.
abbrev pub Distinct : List String → Type 0
Distinct [] = Unit
Distinct (x ∷ xs) = All (λ y. y ≢ x) xs × Distinct xs

-- A filled text that is skipped has been seen.
skipped-elem :
    (s : String) (seen : List String)
    → (is_empty s || elem s seen) ≡ true
    → is_empty s ≡ false
    → elem s seen ≡ true
skipped-elem s seen skip filled = rw filled at skip

new-filled :
    (s : String) (seen : List String)
    → (is_empty s || elem s seen) ≡ false
    → (is_empty s ≡ false) × (elem s seen ≡ false)
new-filled s seen new = ground arith

module _ (x : String) where
  unique_after-Names :
      (seen items : List String) → Any (λ y. y ≡ x) (unique_after seen items) → Any (Names x) items
  unfolding unique_after
  unique_after-Names seen [] a = elim a [ ]
  unique_after-Names seen (item ∷ items) a =
      elim (Bool-cases (is_empty (strip item) || elem (strip item) seen)) [
        | inl skip ↦ there (unique_after-Names seen items (rw skip at a))
        | inr new ↦
            let b : Any (λ y. y ≡ x) (strip item ∷ unique_after (strip item ∷ seen) items) =
              rw new at a in
            let filled = (new-filled (strip item) seen new).0 in
            elim b [
              | here e ↦ here (e, subst (λ s. is_empty s ≡ false) e filled)
              | there later ↦ there (unique_after-Names (strip item ∷ seen) items later)
            ]
      ]

  Names-unique_after :
      (seen items : List String)
      → Any (Names x) items
      → elem x seen ≡ false
      → Any (λ y. y ≡ x) (unique_after seen items)
  unfolding unique_after
  Names-unique_after seen [] a fresh = elim a [ ]
  Names-unique_after seen (item ∷ items) (here (e, filled)) fresh =
      let new : (is_empty (strip item) || elem (strip item) seen) ≡ false =
        rw (e, filled, fresh) refl in
      rw new (here e)
  Names-unique_after seen (item ∷ items) (there a) fresh =
      elim (Bool-cases (is_empty (strip item) || elem (strip item) seen)) [
        | inl skip ↦ rw skip (Names-unique_after seen items a fresh)
        | inr new ↦ elim (Bool-cases (x == strip item)) [
          | inl same ↦ rw new (here (sym ((eq_iff x (strip item)).0 same)))
          | inr other ↦ rw new (
              there (Names-unique_after (strip item ∷ seen) items a (rw (elem, other, fresh) refl)))
        ]
      ]

not-elem-cons :
    (y s : String) (seen : List String)
    → elem y (s ∷ seen) ≡ false
    → (y ≢ s) × (elem y seen ≡ false)
unfolding elem
not-elem-cons y s seen h = elim (Bool-cases (y == s)) [
  | inl same ↦ cc (rw same at h)
  | inr other ↦ (λ e. cc ((eq_iff y s).1 e), rw other at h)
]

-- What has been seen does not come again.
unique_after-fresh :
    (seen items : List String) → All (λ y. elem y seen ≡ false) (unique_after seen items)
unfolding unique_after
unique_after-fresh seen [] = tt
unique_after-fresh seen (item ∷ items) =
    let s : String = strip item in
    elim (Bool-cases (is_empty s || elem s seen)) [
      | inl skip ↦ rw skip (unique_after-fresh seen items)
      | inr new ↦
          let later = unique_after-fresh (s ∷ seen) items in
          let drop_first =
            λ (y : String) (h : elem y (s ∷ seen) ≡ false). (not-elem-cons y s seen h).1 in
          rw new
            ((new-filled s seen new).1, map-All drop_first (unique_after (s ∷ seen) items) later)
    ]

unique_after-Distinct : (seen items : List String) → Distinct (unique_after seen items)
unfolding unique_after
unique_after-Distinct seen [] = tt
unique_after-Distinct seen (item ∷ items) =
    let s : String = strip item in
    elim (Bool-cases (is_empty s || elem s seen)) [
      | inl skip ↦ rw skip (unique_after-Distinct seen items)
      | inr new ↦
          let later = unique_after-fresh (s ∷ seen) items in
          let differ =
            λ (y : String) (h : elem y (s ∷ seen) ≡ false). (not-elem-cons y s seen h).0 in
          rw new (
            map-All differ (unique_after (s ∷ seen) items) later,
            unique_after-Distinct (s ∷ seen) items,
          )
    ]

-- What stripping keeps holds of the merged texts.
unique_after-All :
    (P : String → Type 0)
    → ((s : String) → P s → P (strip s))
    → (seen items : List String) → All P items
    → All P (unique_after seen items)
unfolding unique_after
unique_after-All P stripped seen [] a = tt
unique_after-All P stripped seen (item ∷ items) (p, a) =
    elim (Bool-cases (is_empty (strip item) || elem (strip item) seen)) [
      | inl skip ↦ rw skip (unique_after-All P stripped seen items a)
      | inr new ↦ rw new (stripped item p, unique_after-All P stripped (strip item ∷ seen) items a)
    ]

pub unique_preserve_order-All :
    (P : String → Type 0)
    → ((s : String) → P s → P (strip s))
    → (items : List String) → All P items
    → All P (unique_preserve_order items)
unfolding unique_preserve_order
unique_preserve_order-All P stripped items a = unique_after-All P stripped [] items a

pub unique_preserve_order-Distinct : (items : List String) → Distinct (unique_preserve_order items)
unfolding unique_preserve_order
unique_preserve_order-Distinct items = unique_after-Distinct [] items

-- A text stays where an item names it.
pub unique_preserve_order-Any :
    (x : String) (items : List String)
    → Any (λ y. y ≡ x) (unique_preserve_order items) ↔ Any (Names x) items
unfolding unique_preserve_order
unique_preserve_order-Any x items =
    (unique_after-Names x [] items, λ a. Names-unique_after x [] items a refl)

module _ (policies : Dict GroupPolicy) where
  -- The policy of a group names the right `x`.
  abbrev pub Grants : (GroupPolicy → List String) → String → String → Type 0
  Grants rights x group_id =
      (p : GroupPolicy) × (get group_id policies ≡ some p) × Any (Names x) (rights p)

  module _ (rights : GroupPolicy → List String) (x : String) where
    granted_by-Grants :
        (group_id : String)
        → Any (Names x) (granted_by policies rights group_id)
        → Grants rights x group_id
    unfolding granted_by
    granted_by-Grants group_id a = elim (Option-cases (get group_id policies)) [
      | inl missing ↦
          let none_left : Any (Names x) [] = rw (missing, granted_by) at a in elim none_left [ ]
      | inr (p, found) ↦ (p, found, rw (found, granted_by) at a)
    ]

    Grants-granted_by :
        (group_id : String)
        → Grants rights x group_id
        → Any (Names x) (granted_by policies rights group_id)
    unfolding granted_by
    Grants-granted_by group_id (p, found, a) = rw (found, granted_by) a

    -- A right is in the merged list just when the policy of one of the groups names it.
    pub merge_rights-Grants :
        (group_ids : List String)
        → Any (λ y. y ≡ x) (merge_rights policies rights group_ids)
          ↔ Any (Grants rights x) group_ids
    unfolding merge_rights
    merge_rights-Grants group_ids =
        let granted = granted_by policies rights in
        let (sound, complete) = unique_preserve_order-Any x (flat_map granted group_ids) in
        (
          λ a.
              map-Any granted_by-Grants group_ids
                (flat_map-Any granted (Names x) group_ids (sound a)),
          λ a.
              complete
                (Any-flat_map granted (Names x) group_ids (map-Any Grants-granted_by group_ids a)),
        )
