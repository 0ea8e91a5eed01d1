-- ===== src/Callback/Broker/Queues.antt =====
-- How often a queue stands in a list of queues, and what `put` to all of a list does to one of them.
use local_ai_rag.Prelude.{
  ℕ, suc, ◌<◌, not, List, [], ◌∷◌, ◌++◌, ◌≡◌, ◌≢◌, refl, if◌then◌else◌, arith, keep_if, All,
  same_nat, Bool-cases, inl, inr, ap, ◌∙◌,
}
use local_ai_rag.Dict.{Dict}
use local_ai_rag.Value.{Value}
use local_ai_rag.Callback.Broker.{put_all, put_item}

-- How often a queue stands in a list.
unfoldable pub occurrences : ℕ → List ℕ → ℕ
occurrences q [] = 0
occurrences q (x ∷ xs) = let n = occurrences q xs in if same_nat x q then suc n else n

module _ (q : ℕ) where
  pub put_all-absent :
      (item : Dict Value) (qs : List ℕ) (c : ℕ → List (Dict Value))
      → occurrences q qs ≡ 0
      → put_all item qs c q ≡ c q
  unfolding put_all occurrences
  put_all-absent item [] c h = refl
  put_all-absent item (x ∷ qs) c h = elim (Bool-cases (same_nat x q)) [
    | inl same ↦ absurd (omega (arith, rw same at h))
    | inr other ↦ put_all-absent item qs (put_item item x c) (rw other at h) ∙ rw other refl
  ]

  pub put_all-once :
      (item : Dict Value) (qs : List ℕ) (c : ℕ → List (Dict Value))
      → occurrences q qs ≡ 1
      → put_all item qs c q ≡ c q ++ item ∷ []
  unfolding put_all occurrences
  put_all-once item [] c h = absurd (omega arith)
  put_all-once item (x ∷ qs) c h = elim (Bool-cases (same_nat x q)) [
    | inl same ↦
        let rest : suc (occurrences q qs) ≡ 1 = rw same at h in
        put_all-absent item qs (put_item item x c) (omega (arith, rest)) ∙ rw same refl
    | inr other ↦
        put_all-once item qs (put_item item x c) (rw other at h)
        ∙ ap (λ s. s ++ item ∷ []) (rw other refl)
  ]

  pub occurrences-keep_if :
      (p : ℕ) (qs : List ℕ)
      → p ≢ q
      → occurrences q (keep_if (λ x. not (same_nat x p)) qs) ≡ occurrences q qs
  unfolding occurrences keep_if
  occurrences-keep_if p [] d = refl
  occurrences-keep_if p (x ∷ qs) d = ground (arith, occurrences-keep_if p qs d)

  pub occurrences-append :
      (n : ℕ) (qs : List ℕ) → n ≢ q → occurrences q (qs ++ n ∷ []) ≡ occurrences q qs
  unfolding occurrences
  occurrences-append n [] d = ground arith
  occurrences-append n (x ∷ qs) d = ground (arith, occurrences-append n qs d)

  pub occurrences-above : (qs : List ℕ) → All (λ x. x < q) qs → occurrences q qs ≡ 0
  unfolding occurrences
  occurrences-above [] a = refl
  occurrences-above (x ∷ qs) (h, a) = ground (arith, occurrences-above qs a)

  pub occurrences-new : (qs : List ℕ) → occurrences q qs ≡ 0 → occurrences q (qs ++ q ∷ []) ≡ 1
  unfolding occurrences
  occurrences-new [] h = ground arith
  occurrences-new (x ∷ qs) h = ground (arith, occurrences-new qs)
