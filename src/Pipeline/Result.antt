-- ===== src/Pipeline/Result.antt =====
-- What a call of the pipeline's code may end with: a value, or a Python exception. An exception's
-- message keeps its fixed words and leaves out what is formatted into them.
use local_ai_rag.Prelude.{String, ◌≡◌, refl, ◌⊎◌, inl, inr, Bool, true, false}

pub data Error : Type 0 where
  value_error : String → Error
  key_error : String → Error
  attribute_error : String → Error
  type_error : String → Error
  runtime_error : String → Error
  pipeline_cancelled : String → String → Error

pub data Result {ℓ} (A : Type ℓ) : Type ℓ where
  ok : A → Result A
  err : Error → Result A

infixl 5 ◌>>=◌ ◌>>◌
-- An exception skips what follows.
abbrev pub ◌>>=◌ {ℓ κ} : {A : Type ℓ} {B : Type κ} → Result A → (A → Result B) → Result B
err raised >>= rest = err raised
ok value >>= rest = rest value

abbrev pub ◌>>◌ {κ} : {B : Type κ} → Result (Unit {0}) → Result B → Result B
first >> rest = first >>= λ _. rest

-- `if not test: raise ValueError(message)`
abbrev pub require : Bool → String → Result (Unit {0})
require true message = ok tt
require false message = err (value_error message)

pub Result-cases {ℓ} :
    {A : Type ℓ} (r : Result A) → ((e : Error) × (r ≡ err e)) ⊎ ((a : A) × (r ≡ ok a))
Result-cases (err e) = inl (e, refl)
Result-cases (ok a) = inr (a, refl)

-- What a successful check or bind says of its parts.
pub require-eq-ok : (b : Bool) (m : String) {u : Unit {0}} → require b m ≡ ok u → b ≡ true
require-eq-ok true m h = refl
require-eq-ok false m h = cc

pub >>=-eq-ok {ℓ κ} :
    {A : Type ℓ} {B : Type κ} (first : Result A) (rest : A → Result B) {y : B}
    → (first >>= rest) ≡ ok y
    → (x : A) × (first ≡ ok x) × (rest x ≡ ok y)
>>=-eq-ok (err raised) rest h = cc
>>=-eq-ok (ok value) rest h = (value, refl, h)

pub ok-injective {ℓ} : {A : Type ℓ} {a b : A} → ok a ≡ ok b → a ≡ b
ok-injective h = cc
