-- ===== src/Pipeline/Loader/Laws.antt =====
-- pipeline/loader.py: merging keeps the steps of the parent in their order, and puts the new ones behind.
use local_ai_rag.Prelude.{
  String, ◌≡◌, ◌≢◌, refl, ap, ◌∙◌, inl, inr, false, Option, none, some, List, [], ◌∷◌, Bool-cases,
  All, some-injective, ◌==◌, eq_iff, subst,
}
use local_ai_rag.Prelude.Any.{Any}
use local_ai_rag.Text.{is_empty}
use local_ai_rag.Dict.{Dict, get, get-put}
use local_ai_rag.Value.{Value, Fields, text, end, field, to_dict, Builtins}
use local_ai_rag.Pipeline.Loader.{deep_merge, merge_fields, id_of}

-- The keys of a mapping are distinct, as YAML's are.
abbrev pub HasDistinctKeys : Fields → Type 0
HasDistinctKeys end = Unit
HasDistinctKeys (field k v fs) = (get k (to_dict fs) ≡ none) × HasDistinctKeys fs

-- A key that the child does not have keeps its value.
pub merge_fields-absent :
    (k : String) (child : Fields) (out : Dict Value)
    → get k (to_dict child) ≡ none
    → get k (merge_fields out child) ≡ get k out
unfolding merge_fields get
merge_fields-absent k end out h = refl
merge_fields-absent k (field j v fs) out h = elim (Bool-cases (j == k)) [
  | inl same ↦ cc (rw (same, get) at h)
  | inr other ↦
      merge_fields-absent k fs _ (rw (other, get) at h) ∙ get-put j k _ out ∙ rw other refl
]

-- A text of the child overrides.
pub merge_fields-text :
    (k s : String) (child : Fields) (out : Dict Value)
    → HasDistinctKeys child
    → get k (to_dict child) ≡ some (text s)
    → get k (merge_fields out child) ≡ some (text s)
unfolding merge_fields get
merge_fields-text k s end out distinct h = cc h
merge_fields-text k s (field j v fs) out (absent, distinct) h = elim (Bool-cases (j == k)) [
  | inr other ↦ merge_fields-text k s fs _ distinct (rw (other, get) at h)
  | inl same ↦
      let e : j ≡ k = (eq_iff j k).0 same in
      let is_text : v ≡ text s = some-injective (rw (same, get) at h) in
      let gone : get k (to_dict fs) ≡ none = subst (λ i. get i (to_dict fs) ≡ none) e absent in
      merge_fields-absent k fs _ gone
      ∙ get-put j k _ out
      ∙ rw same (ap some (over (get j out) v is_text))
]
  where
    over :
        (o : Option Value) (w : Value)
        → w ≡ text s
        → (elim o as (λ x. Value) [ none ↦ w | some u ↦ deep_merge u w ]) ≡ text s
    over none w is_text = is_text
    over (some u) w is_text = rw is_text refl

module _ ⦃py : Builtins⦄ where
  -- A step of a YAML list: its keys are distinct, and its id is a text.
  abbrev pub IsStep : Fields → Type 0
  IsStep c =
      HasDistinctKeys c
      × ((sid : String) × (get "id" (to_dict c) ≡ some (text sid)) × (is_empty sid ≡ false))

  -- Under an id stands a step with that id.
  abbrev Indexed : String × Fields → Type 0
  Indexed e =
      HasDistinctKeys e.1 × (get "id" (to_dict e.1) ≡ some (text e.0)) × (is_empty e.0 ≡ false)

  -- A child's step is new when no step of the parent has its id.
  abbrev pub IsNew : List Fields → Fields → Type 0
  IsNew parents c = All (λ p. id_of (to_dict p) ≢ id_of (to_dict c)) parents

  -- The new ones among the child's steps, in their order: those whose id no step of the parent has.
  pub data Picked (parents : List Fields) : List Fields → List Fields → Type 0 where
    none_left : Picked parents [] []
    taken :
        {c : Fields} {cs new : List Fields}
        → IsNew parents c
        → Picked parents cs new
        → Picked parents (c ∷ cs) (c ∷ new)
    merged :
        {c : Fields} {cs new : List Fields}
        → Any (λ p. id_of (to_dict p) ≡ id_of (to_dict c)) parents
        → Picked parents cs new
        → Picked parents (c ∷ cs) new
