-- ===== src/Pipeline/Actions/ContextBudget/Rules.antt =====
-- actions/manage_context_budget.py: the rules for compacting code. Python's floats are an argument: what
-- `float` makes of a value, `none` for an exception, whether it lies in (0,1], and `int(n * x)`.
use local_ai_rag.Prelude.{
  String, Bool, not, ◌&&◌, Option, none, some, List, [], ◌∷◌, if◌then◌else◌, ◌==◌,
}
use local_ai_rag.Prelude.Int.{ℤ}
use local_ai_rag.Text.{is_empty}
use local_ai_rag.Dict.{Dict, contains, get}
use local_ai_rag.Value.{
  Value, object, end, items, nil, as_dict, as_list, lookup, str_or_empty, value_or, truthy,
  Builtins,
}
use local_ai_rag.Pipeline.Result.{Result, ok, err, value_error, ◌>>=◌, ◌>>◌, require}
use local_ai_rag.Pipeline.Validator.Rules.{elem}

pub record Floats {ℓ} (Float : Type ℓ) : Type ℓ where
  pub float_of : Value → Option Float
  pub in_unit : Float → Bool
  pub scaled : ℤ → Float → ℤ

-- `_Rule`
pub record Rule {ℓ} (Float : Type ℓ) : Type ℓ where
  pub language : String
  pub policy : String
  pub threshold : Option Float
  pub inbox_key : String

abbrev pub or_value_error {ℓ} : {A : Type ℓ} → String → Option A → Result A
or_value_error message none = err (value_error message)
or_value_error message (some a) = ok a

module _ {ℓ} {Float : Type ℓ} (floats : Floats Float) ⦃py : Builtins⦄ where
  -- The threshold of a rule, which only the policy `threshold` has.
  unfoldable pub parse_threshold : String → Dict Value → Result (Option Float)
  unfolding lookup get
  parse_threshold policy r =
      if policy == "threshold"
      then (do
        require (contains "threshold" r) "rules.threshold is required for policy=threshold"
        x ←
            or_value_error "rules.threshold must be a number in (0,1]"
              (floats.float_of (lookup "threshold" r))
        require (floats.in_unit x) "rules.threshold must be in (0,1]"
        ok (some x))
      else ok none

  -- One entry of `compact_code.rules`.
  unfoldable pub parse_rule : Value → Result (Rule Float)
  unfolding str_or_empty lookup elem parse_threshold
  parse_rule entry = do
    r ← or_value_error "compact_code.rules must be a dict" (as_dict entry)
    let lang = py.lower (str_or_empty (lookup "language" r))
    let policy = py.lower (str_or_empty (lookup "policy" r))
    let inbox_key = str_or_empty (lookup "inbox_key" r)
    require (elem lang ("sql" ∷ "dotnet" ∷ [])) "rules.language must be one of"
    require (elem policy ("always" ∷ "threshold" ∷ "demand" ∷ [])) "rules.policy must be one of"
    threshold ← parse_threshold policy r
    require (not (policy == "demand" && is_empty inbox_key))
        "rules.inbox_key is required for policy=demand"
    ok (record { language = lang; policy = policy; threshold = threshold; inbox_key = inbox_key })

  unfoldable pub parse_entries : List Value → Result (List (Rule Float))
  unfolding parse_rule
  parse_entries [] = ok []
  parse_entries (v ∷ vs) = do r ← parse_rule v; rs ← parse_entries vs; ok (r ∷ rs)

  -- `_parse_rules`
  unfoldable pub parse_rules : Dict Value → Result (List (Rule Float))
  unfolding parse_entries lookup truthy
  parse_rules step_raw = do
    cfg ←
        or_value_error "compact_code must be a dict if present"
          (as_dict (value_or (lookup "compact_code" step_raw) (object end)))
    entries ←
        or_value_error "compact_code.rules must be a list"
          (as_list (value_or (lookup "rules" cfg) (items nil)))
    parse_entries entries

module _ {ℓ} {Float : Type ℓ} where
  -- `_first_matching_rule`; a language of this model is stripped and in lower case.
  unfoldable pub first_matching_rule : String → List (Rule Float) → Option (Rule Float)
  first_matching_rule lang [] = none
  first_matching_rule lang (r ∷ rs) =
      let rest = first_matching_rule lang rs in if r.language == lang then some r else rest

  -- The topics that a rule of the policy `demand` listens to.
  unfoldable pub rule_keys : List (Rule Float) → List String
  rule_keys [] = []
  rule_keys (r ∷ rs) =
      let rest = rule_keys rs in
      if r.policy == "demand" && not (is_empty r.inbox_key) then r.inbox_key ∷ rest else rest
