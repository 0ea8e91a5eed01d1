-- ===== src/Value.antt =====
-- Values of unknown shape: what YAML, JSON and request payloads hold, and what Python's `str`,
-- truth value and `isinstance` make of them. Floats are left out. `other` is an object that JSON has no form
-- for, such as a set or the bytes that `ast.literal_eval` may give, by its truth value and its `repr`.
use Prim.Native.Char.{Char}
use local_ai_rag.Prelude.{
  String, Bool, true, false, not, ◌&&◌, Option, none, some, List, [], ◌∷◌, if◌then◌else◌,
}
use local_ai_rag.Prelude.Int.{ℤ, pos}
use local_ai_rag.Text.{is_empty, strip}
use local_ai_rag.Dict.{Dict, get}

mutual
  pub data Value : Type 0 where
    null : Value
    flag : Bool → Value
    num : ℤ → Value
    text : String → Value
    items : Values → Value
    object : Fields → Value
    other : Bool → String → Value

  pub data Values : Type 0 where
    nil : Values
    cons : Value → Values → Values

  pub data Fields : Type 0 where
    end : Fields
    field : String → Value → Fields → Fields

abbrev pub to_list : Values → List Value
to_list nil = []
to_list (cons v vs) = v ∷ to_list vs

abbrev pub to_dict : Fields → Dict Value
to_dict end = []
to_dict (field k v fs) = (k, v) ∷ to_dict fs

-- Python's builtins that the source calls and whose tables or grammar are not spelled out here:
-- `str` of a number or a container, `str.lower`, `str.upper` and `str.isalnum` of one character by the Unicode
-- version in use, `int` of a text and of the float that a text denotes, and `template.format(arg)` and
-- `template.format(name=arg)`. `none` is an exception.
pub record Builtins : Type 0 where
  pub repr : Value → String
  pub lower : String → String
  pub upper : String → String
  pub is_alnum : Char → Bool
  pub int_of_text : String → Option ℤ
  pub int_of_float : String → Option ℤ
  pub format : String → String → Option String
  pub format_name : String → String → Option String

-- `bool(v)`
unfoldable pub truthy : Value → Bool
truthy null = false
truthy (flag b) = b
truthy (num (pos Prim.Native.Nat.zero)) = false
truthy (num n) = true
truthy (text s) = not (is_empty s)
truthy (items nil) = false
truthy (items (cons v vs)) = true
truthy (object end) = false
truthy (object (field k v fs)) = true
truthy (other b s) = b

-- Whether `json.dumps` can write a value.
unfoldable mutual
  pub is_json : Value → Bool
  is_json null = true
  is_json (flag b) = true
  is_json (num n) = true
  is_json (text s) = true
  is_json (items vs) = all_json vs
  is_json (object fs) = fields_json fs
  is_json (other b s) = false

  pub all_json : Values → Bool
  all_json nil = true
  all_json (cons v vs) = is_json v && all_json vs

  pub fields_json : Fields → Bool
  fields_json end = true
  fields_json (field k v fs) = is_json v && fields_json fs

-- `raw.get(k)`, with a missing key as `None`
unfoldable pub lookup : String → Dict Value → Value
unfolding get
lookup k d = elim (get k d) [ none ↦ null | some v ↦ v ]

-- `isinstance(v, str) and v.strip()`: the stripped text, or empty.
unfoldable pub stripped_text : Value → String
unfolding strip
stripped_text (text s) = strip s
stripped_text v = ""

module _ ⦃py : Builtins⦄ where
  -- `str(v)`
  unfoldable pub str : Value → String
  str null = "None"
  str (flag true) = "True"
  str (flag false) = "False"
  str (text s) = s
  str v = py.repr v

  -- `str(v or "").strip()`
  unfoldable pub str_or_empty : Value → String
  unfolding truthy str strip
  str_or_empty v = if truthy v then strip (str v) else ""

-- `v if isinstance(v, dict)`
abbrev pub as_dict : Value → Option (Dict Value)
as_dict (object fs) = some (to_dict fs)
as_dict v = none

-- `v if isinstance(v, list)`
abbrev pub as_list : Value → Option (List Value)
as_list (items vs) = some (to_list vs)
as_list v = none

-- A list as a value.
abbrev pub of_list : List Value → Values
of_list [] = nil
of_list (v ∷ vs) = cons v (of_list vs)

-- A dictionary as a value.
abbrev pub of_dict : Dict Value → Fields
of_dict [] = end
of_dict ((k, v) ∷ d) = field k v (of_dict d)

-- `v or w`
abbrev pub value_or : Value → Value → Value
value_or v w = if truthy v then v else w

-- `str(v or "")`
unfoldable pub plain_text : ⦃py : Builtins⦄ → Value → String
unfolding truthy str
plain_text v = if truthy v then str v else ""

-- Whether `json.dumps` can write a dictionary.
unfoldable pub is_json_dict : Dict Value → Bool
unfolding is_json
is_json_dict [] = true
is_json_dict ((k, v) ∷ d) = is_json v && is_json_dict d
