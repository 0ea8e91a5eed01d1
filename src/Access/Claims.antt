-- ===== src/Access/Claims.antt =====
-- server/auth/user_access.py, `_map_claims_to_groups`: how the values of a claim are found in a
-- token's claims, a JSON object.
use local_ai_rag.Prelude.{
  String, ℕ, zero, suc, none, some, List, [], ◌∷◌, ◌++◌, if◌then◌else◌, ◌==◌,
}
use local_ai_rag.Prelude.Any.{flat_map}
use local_ai_rag.Text.{is_empty, strip}
use local_ai_rag.Text.Chars.{is_code, split_at}
use local_ai_rag.Dict.{Dict, get}
use local_ai_rag.Value.{Value, null, items, object, to_list, to_dict, of_list, as_dict}

-- `d.values()`
abbrev pub values {ℓ} : {V : Type ℓ} → Dict V → List V
values [] = []
values ((k, v) ∷ d) = v ∷ values d

-- `_walk`: what stands at the end of a path, `*` for all values of an object.
unfoldable pub walk : List String → Value → List Value
unfolding get flat_map
walk [] cur = cur ∷ []
walk (part ∷ parts) cur = elim (as_dict cur) [
  | none ↦ []
  | some d ↦
      let every = flat_map (walk parts) (values d) in
      let one : List Value = elim (get part d) [ none ↦ [] | some v ↦ walk parts v ] in
      if part == "*" then every else one
]

-- The stripped parts of a dotted path that are not blank.
abbrev pub filled_parts : List String → List String
unfolding strip
filled_parts [] = []
filled_parts (p ∷ ps) =
    let rest = filled_parts ps in if is_empty (strip p) then rest else strip p ∷ rest

abbrev pub spread : Value → List Value
spread (items vs) = to_list vs
spread v = v ∷ []

-- Several values at the end of a path become one list.
abbrev pub join_values : List Value → Value
unfolding flat_map
join_values [] = null
join_values (v ∷ []) = v
join_values (v ∷ w ∷ vs) = items (of_list (flat_map spread (v ∷ w ∷ vs)))

-- `_get_claim_value`
unfoldable pub get_claim_value : Value → String → Value
unfolding split_at walk
get_claim_value obj path =
    let parts = filled_parts (split_at (is_code 46) path) in
    elim parts [ [] ↦ null | p ∷ ps ↦ join_values (walk (p ∷ ps) obj) ]

abbrev pub candidate_keys : List String
candidate_keys = "name" ∷ "value" ∷ "role" ∷ "group" ∷ "groups" ∷ "id" ∷ []

-- `_extract_candidates` with the depth that is left: at most nine levels are read.
unfoldable pub extract_candidates : ℕ → Value → List Value
unfolding flat_map get
extract_candidates zero v = []
extract_candidates (suc n) null = []
extract_candidates (suc n) (items vs) = flat_map (extract_candidates n) (to_list vs)
extract_candidates (suc n) (object fs) =
    let d = to_dict fs in
    let at_key = λ (key : String). (elim (get key d) as (λ o. List Value) [
      | none ↦ []
      | some v ↦ extract_candidates n v
    ]) in
    flat_map at_key candidate_keys ++ flat_map (extract_candidates n) (values d)
extract_candidates (suc n) v = v ∷ []

-- `depth > 8` stops.
abbrev pub max_depth : ℕ
max_depth = 9
