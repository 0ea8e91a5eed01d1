-- ===== src/Access/Merge/Levels.antt =====
-- server/auth/user_access.py: the merged user level is the highest that a group gives.
use local_ai_rag.Prelude.{
  String, ◌≡◌, refl, inl, inr, false, none, some, List, [], ◌∷◌, Bool-cases, Option-cases,
  some-injective, All, arith, subst,
}
use local_ai_rag.Prelude.Any.{Any, here, there, map-All}
use local_ai_rag.Prelude.Options.{◌>>=◌, >>=-eq-some}
use local_ai_rag.Prelude.Int.{ℤ, ◌≤ℤ◌, leb_ℤ, leb_ℤ→le}
use local_ai_rag.Dict.{Dict, get}
use local_ai_rag.Access.Policies.{GroupPolicy}
use local_ai_rag.Access.Merge.{user_levels, max_level, merge_user_level}

-- The highest is among the levels, and none of them is above it.
max_level-Any : (ns : List ℤ) (n : ℤ) → max_level ns ≡ some n → Any (λ m. m ≡ n) ns
unfolding max_level
max_level-Any [] n h = cc h
max_level-Any (m ∷ ms) n h = elim (Option-cases (max_level ms)) [
  | inl empty ↦ here (some-injective (rw empty at h))
  | inr (k, top) ↦ elim (Bool-cases (leb_ℤ k m)) [
    | inl le ↦ here (some-injective (rw (top, le) at h))
    | inr gt ↦ there (
        max_level-Any ms n
          (subst (λ i. max_level ms ≡ some i) (some-injective (rw (top, gt) at h)) top))
  ]
]

not-le : (k m : ℤ) → leb_ℤ k m ≡ false → m ≤ℤ k
not-le k m h = ground arith

ℤ-refl : (m : ℤ) → m ≤ℤ m
ℤ-refl m = omega arith

ℤ-trans : (i k m : ℤ) → i ≤ℤ k → k ≤ℤ m → i ≤ℤ m
ℤ-trans i k m h g = omega arith

max_level-none : (ns : List ℤ) → max_level ns ≡ none → ns ≡ []
unfolding max_level
max_level-none [] h = refl
max_level-none (m ∷ ms) h = elim (Option-cases (max_level ms)) [
  | inl empty ↦ cc (rw empty at h)
  | inr (k, top) ↦ cc (rw top at h)
]

max_level-All : (ns : List ℤ) (n : ℤ) → max_level ns ≡ some n → All (λ m. m ≤ℤ n) ns
unfolding max_level
max_level-All [] n h = tt
max_level-All (m ∷ ms) n h = elim (Option-cases (max_level ms)) [
  | inl empty ↦
      let e : m ≡ n = some-injective (rw empty at h) in
      let none_left : ms ≡ [] = max_level-none ms empty in
      (subst (λ k. m ≤ℤ k) e (ℤ-refl m), rw none_left tt)
  | inr (k, top) ↦
      let below = max_level-All ms k top in
      elim (Bool-cases (leb_ℤ k m)) [
        | inl le ↦
            let e : m ≡ n = some-injective (rw (top, le) at h) in
            let through = λ (i : ℤ) (b : i ≤ℤ k). ℤ-trans i k m b (leb_ℤ→le k m le) in
            (
              subst (λ j. m ≤ℤ j) e (ℤ-refl m),
              subst (λ j. All (λ i. i ≤ℤ j) ms) e (map-All through ms below),
            )
        | inr gt ↦
            let e : k ≡ n = some-injective (rw (top, gt) at h) in
            (subst (λ j. m ≤ℤ j) e (not-le k m gt), subst (λ j. All (λ i. i ≤ℤ j) ms) e below)
      ]
]

module _ (policies : Dict GroupPolicy) where
  -- The policy of a group gives the level `n`.
  abbrev pub HasLevel : ℤ → String → Type 0
  HasLevel n group_id =
      (p : GroupPolicy) × (get group_id policies ≡ some p) × (p.user_level ≡ some n)

  level-HasLevel :
      (n : ℤ) (g : String) → (get g policies >>= λ p. p.user_level) ≡ some n → HasLevel n g
  level-HasLevel n g h = >>=-eq-some (get g policies) (λ p. p.user_level) h

  user_levels-HasLevel :
      (n : ℤ) (group_ids : List String)
      → Any (λ m. m ≡ n) (user_levels policies group_ids)
      → Any (HasLevel n) group_ids
  unfolding user_levels
  user_levels-HasLevel n [] a = elim a [ ]
  user_levels-HasLevel n (g ∷ gs) a = elim (Option-cases (get g policies >>= λ p. p.user_level)) [
    | inl empty ↦ there (user_levels-HasLevel n gs (rw (empty, user_levels) at a))
    | inr (m, given) ↦
        let b : Any (λ k. k ≡ n) (m ∷ user_levels policies gs) = rw (given, user_levels) at a in
        elim b [
          | here e ↦ here (
              level-HasLevel n g
                (subst (λ k. (get g policies >>= λ p. p.user_level) ≡ some k) e given))
          | there later ↦ there (user_levels-HasLevel n gs later)
        ]
  ]

  -- What holds of every level holds of the one that a group gives.
  HasLevel-All :
      (Q : ℤ → Type 0) (n : ℤ) (group_ids : List String)
      → All Q (user_levels policies group_ids)
      → Any (HasLevel n) group_ids
      → Q n
  unfolding user_levels
  HasLevel-All Q n [] all a = elim a [ ]
  HasLevel-All Q n (g ∷ gs) all (here (p, found, given)) =
      let here_it : (get g policies >>= λ q. q.user_level) ≡ some n = rw found given in
      (rw (here_it, user_levels) at all).0
  HasLevel-All Q n (g ∷ gs) all (there a) =
      elim (Option-cases (get g policies >>= λ p. p.user_level)) [
        | inl empty ↦ HasLevel-All Q n gs (rw (empty, user_levels) at all) a
        | inr (m, given) ↦ HasLevel-All Q n gs ((rw (given, user_levels) at all).1) a
      ]

  -- The merged level is one that a group gives, and no group gives a higher one.
  pub merge_user_level-IsMax :
      (group_ids : List String) (n : ℤ)
      → merge_user_level policies group_ids ≡ some n
      → Any (HasLevel n) group_ids × ((m : ℤ) → Any (HasLevel m) group_ids → m ≤ℤ n)
  unfolding merge_user_level
  merge_user_level-IsMax group_ids n h =
      let levels : List ℤ = user_levels policies group_ids in
      (
        user_levels-HasLevel n group_ids (max_level-Any levels n h),
        λ m a. HasLevel-All (λ i. i ≤ℤ n) m group_ids (max_level-All levels n h) a,
      )
