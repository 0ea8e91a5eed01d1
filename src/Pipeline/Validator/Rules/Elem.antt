-- ===== src/Pipeline/Validator/Rules/Elem.antt =====
-- What `x in xs` says of a list of texts.
use local_ai_rag.Prelude.{
  String, ◌≡◌, ◌≢◌, sym, ◌∙◌, true, false, List, [], ◌∷◌, ◌==◌, eq_iff, Bool-cases, inl, inr, All,
}
use local_ai_rag.Prelude.Any.{Any, here, there}
use local_ai_rag.Pipeline.Validator.Rules.{elem}

pub elem-Any : (x : String) (xs : List String) → elem x xs ≡ true → Any (λ y. y ≡ x) xs
unfolding elem
elem-Any x [] h = cc h
elem-Any x (y ∷ ys) h = elim (Bool-cases (x == y)) [
  | inl same ↦ here (sym ((eq_iff x y).0 same))
  | inr other ↦ there (elem-Any x ys (rw other at h))
]

pub not-elem-All : (x : String) (xs : List String) → elem x xs ≡ false → All (λ y. y ≢ x) xs
unfolding elem
not-elem-All x [] h = tt
not-elem-All x (y ∷ ys) h = elim (Bool-cases (x == y)) [
  | inl same ↦ cc (rw same at h)
  | inr other ↦
      let differ : y ≢ x =
        λ e. let clash : false ≡ true = sym other ∙ (eq_iff x y).1 (sym e) in cc clash in
      (differ, not-elem-All x ys (rw other at h))
]
