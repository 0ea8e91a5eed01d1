-- ===== src/Dict.antt =====
-- Python's `dict` with string keys: an association list in insertion order. Assigning to a key that
-- is there keeps its place, and a new key goes to the end.
use local_ai_rag.Prelude.{
  ◌≤◌, String, ◌≡◌, refl, Bool, Option, none, some, List, [], ◌∷◌, arith, ◌==◌, eq_iff,
  if◌then◌else◌, is_some, length, ◌+◌, All, Bool-cases, inl, inr, some-injective, subst, sym, false,
}

abbrev pub Dict {ℓ} : Type ℓ → Type ℓ
Dict V = List (String × V)

module _ {ℓ} {V : Type ℓ} where
  -- `d.get(k)`
  unfoldable pub get : String → Dict V → Option V
  get k [] = none
  get k ((j, v) ∷ d) = if j == k then some v else get k d

  -- `d[k] = v`
  unfoldable pub put : String → V → Dict V → Dict V
  put k v [] = (k, v) ∷ []
  put k v ((j, w) ∷ d) = if j == k then (j, v) ∷ d else (j, w) ∷ put k v d

  -- `d.pop(k, None)`
  unfoldable pub remove : String → Dict V → Dict V
  remove k [] = []
  remove k ((j, v) ∷ d) = let rest = remove k d in if j == k then rest else (j, v) ∷ rest

  -- The entries left when those whose values have a property are popped.
  unfoldable pub drop_if : (V → Bool) → Dict V → Dict V
  drop_if p [] = []
  drop_if p ((k, v) ∷ d) = let rest = drop_if p d in if p v then rest else (k, v) ∷ rest

  -- `k in d`
  abbrev pub contains : String → Dict V → Bool
  contains k d = is_some (get k d)

  -- The keys in insertion order.
  abbrev pub keys : Dict V → List String
  keys [] = []
  keys ((k, v) ∷ d) = k ∷ keys d

  pub get-put :
      (k j : String) (v : V) (d : Dict V) → get j (put k v d) ≡ (if k == j then some v else get j d)
  unfolding get put
  get-put k j v [] = refl
  get-put k j v ((i, w) ∷ d) = ground (arith, eq_iff i k, eq_iff i j, eq_iff k j, get-put k j v d)

  pub get-remove :
      (k j : String) (d : Dict V) → get j (remove k d) ≡ (if k == j then none else get j d)
  unfolding get remove
  get-remove k j [] = ground arith
  get-remove k j ((i, w) ∷ d) = ground (arith, eq_iff i k, eq_iff i j, eq_iff k j, get-remove k j d)

  pub length-remove-le : (k : String) (d : Dict V) → length (remove k d) ≤ length d
  unfolding remove
  length-remove-le k [] = omega arith
  length-remove-le k ((j, v) ∷ d) = ground (arith, length-remove-le k d)

  pub length-put-le : (k : String) (v : V) (d : Dict V) → length (put k v d) ≤ length d + 1
  unfolding put
  length-put-le k v [] = omega arith
  length-put-le k v ((j, w) ∷ d) = ground (arith, length-put-le k v d)

  -- An entry without the property is still there.
  pub get-drop_if :
      (p : V → Bool) (k : String) (v : V) (d : Dict V)
      → get k d ≡ some v
      → p v ≡ false
      → get k (drop_if p d) ≡ some v
  unfolding get drop_if
  get-drop_if p k v [] h f = h
  get-drop_if p k v ((j, w) ∷ d) h f = elim (Bool-cases (j == k)) [
    | inl same ↦
        let e : some w ≡ some v = rw (same, get) at h in rw (some-injective e, f, same, get) refl
    | inr other ↦
        let ih = get-drop_if p k v d (rw (other, get) at h) f in
        elim (Bool-cases (p w)) [
          | inl dropped ↦ rw dropped ih
          | inr kept ↦ rw (kept, other, get) ih
        ]
  ]

  -- No entry appears.
  pub drop_if-absent :
      (p : V → Bool) (k : String) (d : Dict V) → get k d ≡ none → get k (drop_if p d) ≡ none
  unfolding get drop_if
  drop_if-absent p k [] h = h
  drop_if-absent p k ((j, w) ∷ d) h = elim (Bool-cases (j == k)) [
    | inl same ↦ cc (rw (same, get) at h)
    | inr other ↦
        let ih = drop_if-absent p k d (rw (other, get) at h) in
        elim (Bool-cases (p w)) [
          | inl dropped ↦ rw dropped ih
          | inr kept ↦ rw (kept, other, get) ih
        ]
  ]

  pub All-values-put {κ} :
      (Q : V → Type κ) (k : String) (v : V) (d : Dict V)
      → Q v
      → All (λ e. Q e.1) d
      → All (λ e. Q e.1) (put k v d)
  unfolding put
  All-values-put Q k v [] q a = (q, tt)
  All-values-put Q k v ((j, w) ∷ d) q (qj, a) = elim (Bool-cases (j == k)) [
    | inl same ↦ rw same (q, a)
    | inr other ↦ rw other (qj, All-values-put Q k v d q a)
  ]

  pub All-drop_if {κ} :
      (Q : String × V → Type κ) (p : V → Bool) (d : Dict V) → All Q d → All Q (drop_if p d)
  unfolding drop_if
  All-drop_if Q p [] a = a
  All-drop_if Q p ((j, w) ∷ d) (q, a) = elim (Bool-cases (p w)) [
    | inl dropped ↦ rw dropped (All-drop_if Q p d a)
    | inr kept ↦ rw kept (q, All-drop_if Q p d a)
  ]

  pub All-remove {κ} :
      (Q : String × V → Type κ) (k : String) (d : Dict V) → All Q d → All Q (remove k d)
  unfolding remove
  All-remove Q k [] a = tt
  All-remove Q k ((j, v) ∷ d) (h, a) = elim (Bool-cases (j == k)) [
    | inl same ↦ rw (same, remove) (All-remove Q k d a)
    | inr other ↦ rw (other, remove) (h, All-remove Q k d a)
  ]

  -- What holds of every entry holds of the one that a lookup finds.
  pub get-All {κ} :
      (Q : V → Type κ) (k : String) (v : V) (d : Dict V)
      → All (λ e. Q e.1) d
      → get k d ≡ some v
      → Q v
  unfolding get
  get-All Q k v [] a h = cc h
  get-All Q k v ((j, w) ∷ d) (q, a) h = elim (Bool-cases (j == k)) [
    | inl same ↦ subst Q (some-injective (rw (same, get) at h)) q
    | inr other ↦ get-All Q k v d a (rw (other, get) at h)
  ]

  -- The same for properties of a key and its value.
  pub All-put {κ} :
      (Q : String × V → Type κ) (k : String) (v : V) (d : Dict V)
      → Q (k, v)
      → All Q d
      → All Q (put k v d)
  unfolding put
  All-put Q k v [] q a = (q, tt)
  All-put Q k v ((j, w) ∷ d) q (qj, a) = elim (Bool-cases (j == k)) [
    | inl same ↦ rw same (subst (λ i. Q (i, v)) (sym ((eq_iff j k).0 same)) q, a)
    | inr other ↦ rw other (qj, All-put Q k v d q a)
  ]

  pub All-get {κ} :
      (Q : String × V → Type κ) (k : String) (v : V) (d : Dict V)
      → All Q d
      → get k d ≡ some v
      → Q (k, v)
  unfolding get
  All-get Q k v [] a h = cc h
  All-get Q k v ((j, w) ∷ d) (q, a) h = elim (Bool-cases (j == k)) [
    | inl same ↦
        subst (λ i. Q (i, v)) ((eq_iff j k).0 same)
          (subst (λ u. Q (j, u)) (some-injective (rw (same, get) at h)) q)
    | inr other ↦ All-get Q k v d a (rw (other, get) at h)
  ]

-- A property of the keys survives an assignment to a key that has it.
pub All-keys-put {ℓ κ} :
    {V : Type ℓ} (Q : String → Type κ) (k : String) (v : V) (d : Dict V)
    → Q k
    → All Q (keys d)
    → All Q (keys (put k v d))
unfolding put
All-keys-put Q k v [] q a = (q, tt)
All-keys-put Q k v ((j, w) ∷ d) q (qj, a) = elim (Bool-cases (j == k)) [
  | inl same ↦ rw same (qj, a)
  | inr other ↦ rw other (qj, All-keys-put Q k v d q a)
]

pub ruleset dict_laws = (get-put, get-remove)
