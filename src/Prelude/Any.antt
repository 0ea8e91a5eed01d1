-- ===== src/Prelude/Any.antt =====
-- The predicate that holds of some element of a list, and `flat_map`, a loop that extends a list.
use mathlib.Core.Path.{◌≡◌, refl}
use mathlib.Core.Logic.{◌⊎◌, inl, inr}
use mathlib.Core.List.{List, [], ◌∷◌, ◌++◌}
use local_ai_rag.Prelude.Lists.{All, All-append}

pub data Any {ℓ κ} {A : Type ℓ} (P : A → Type κ) : List A → Type (ℓ ⊔ κ) where
  here : {x : A} {xs : List A} → P x → Any P (x ∷ xs)
  there : {x : A} {xs : List A} → Any P xs → Any P (x ∷ xs)

-- `for x in xs: out.extend(f(x))`
unfoldable pub flat_map {ℓ κ} : {A : Type ℓ} {B : Type κ} → (A → List B) → List A → List B
flat_map f [] = []
flat_map f (x ∷ xs) = f x ++ flat_map f xs

module _ {ℓ κ} {A : Type ℓ} (P : A → Type κ) where
  pub Any-append-left : (xs ys : List A) → Any P xs → Any P (xs ++ ys)
  Any-append-left [] ys a = elim a [ ]
  Any-append-left (x ∷ xs) ys (here p) = here p
  Any-append-left (x ∷ xs) ys (there a) = there (Any-append-left xs ys a)

  pub Any-append-right : (xs ys : List A) → Any P ys → Any P (xs ++ ys)
  Any-append-right [] ys a = a
  Any-append-right (x ∷ xs) ys a = there (Any-append-right xs ys a)

  pub append-Any : (xs ys : List A) → Any P (xs ++ ys) → Any P xs ⊎ Any P ys
  append-Any [] ys a = inr a
  append-Any (x ∷ xs) ys (here p) = inl (here p)
  append-Any (x ∷ xs) ys (there a) = elim (append-Any xs ys a) [
    | inl b ↦ inl (there b)
    | inr b ↦ inr b
  ]

  -- What holds of an element and of none is refuted.
  pub not-Any : (xs : List A) → All (λ x. P x → ⊥) xs → Any P xs → ⊥
  not-Any [] _ a = elim a [ ]
  not-Any (x ∷ xs) (h, hs) (here p) = h p
  not-Any (x ∷ xs) (h, hs) (there a) = not-Any xs hs a

pub map-Any {ℓ κ ι} :
    {A : Type ℓ} {P : A → Type κ} {Q : A → Type ι}
    → ((x : A) → P x → Q x)
    → (xs : List A) → Any P xs
    → Any Q xs
map-Any f [] a = elim a [ ]
map-Any f (x ∷ xs) (here p) = here (f x p)
map-Any f (x ∷ xs) (there a) = there (map-Any f xs a)

pub map-All {ℓ κ ι} :
    {A : Type ℓ} {P : A → Type κ} {Q : A → Type ι}
    → ((x : A) → P x → Q x)
    → (xs : List A) → All P xs
    → All Q xs
map-All f [] a = tt
map-All f (x ∷ xs) (p, a) = (f x p, map-All f xs a)

module _ {ℓ κ ι} {A : Type ℓ} {B : Type κ} (f : A → List B) (P : B → Type ι) where
  pub Any-flat_map : (xs : List A) → Any (λ x. Any P (f x)) xs → Any P (flat_map f xs)
  unfolding flat_map
  Any-flat_map [] a = elim a [ ]
  Any-flat_map (x ∷ xs) (here a) = Any-append-left P (f x) (flat_map f xs) a
  Any-flat_map (x ∷ xs) (there a) = Any-append-right P (f x) (flat_map f xs) (Any-flat_map xs a)

  pub flat_map-Any : (xs : List A) → Any P (flat_map f xs) → Any (λ x. Any P (f x)) xs
  unfolding flat_map
  flat_map-Any [] a = elim a [ ]
  flat_map-Any (x ∷ xs) a = elim (append-Any P (f x) (flat_map f xs) a) [
    | inl b ↦ here b
    | inr b ↦ there (flat_map-Any xs b)
  ]

  -- What holds of all that `f` makes of the elements with a property.
  pub All-flat_map {ν} :
      (Q : A → Type ν)
      → ((x : A) → Q x → All P (f x))
      → (xs : List A) → All Q xs
      → All P (flat_map f xs)
  unfolding flat_map
  All-flat_map Q h [] a = tt
  All-flat_map Q h (x ∷ xs) (q, a) =
      All-append P (f x) (flat_map f xs) (h x q) (All-flat_map Q h xs a)

-- What is made of an element stands in a relation to it.
pub All-flat_map-Any {ℓ κ ι} :
    {A : Type ℓ} {B : Type κ} (R : A → B → Type ι) (f : A → List B)
    → ((x : A) → All (R x) (f x))
    → (xs : List A) → All (λ y. Any (λ x. R x y) xs) (flat_map f xs)
unfolding flat_map
All-flat_map-Any R f h [] = tt
All-flat_map-Any {A = A} {B = B} R f h (x ∷ xs) =
    let first = map-All {Q = λ y. Any (λ z. R z y) (x ∷ xs)} (λ y r. here r) (f x) (h x) in
    let later =
      map-All {Q = λ y. Any (λ z. R z y) (x ∷ xs)} (λ y a. there a) (flat_map f xs)
        (All-flat_map-Any R f h xs) in
    All-append (λ y. Any (λ z. R z y) (x ∷ xs)) (f x) (flat_map f xs) first later

-- Every element of a list is among its elements.
pub All-self {ℓ} : {A : Type ℓ} (xs : List A) → All (λ x. Any (λ y. x ≡ y) xs) xs
All-self [] = tt
All-self (x ∷ xs) = (here refl, map-All (λ y a. there a) xs (All-self xs))
