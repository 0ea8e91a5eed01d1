-- ===== src/Access/Groups.antt =====
-- server/auth/user_access.py, `_map_claims_to_groups`: which groups the claims of a token stand for.
pub mod Laws
pub mod Aliases
use Prim.Native.Char.{Char}
use local_ai_rag.Prelude.{
  String, Option, none, some, List, [], ◌∷◌, map, ◌++◌, if◌then◌else◌, Bool, true, false, not, ◌&&◌,
  ◌||◌, ◌==◌,
}
use local_ai_rag.Prelude.Any.{flat_map}
use local_ai_rag.Prelude.Options.{◌>>=◌}
use local_ai_rag.Text.{is_empty, strip, after_prefix}
use local_ai_rag.Text.Chars.{is_code, split_at, lstrip_of}
use local_ai_rag.Dict.{Dict, get, put}
use local_ai_rag.Value.{
  Value, null, text, object, end, as_dict, lookup, str, str_or_empty, value_or, Builtins, truthy,
}
use local_ai_rag.Access.Policies.{none_if_empty}
use local_ai_rag.Access.Merge.{unique_preserve_order}
use local_ai_rag.Access.Claims.{get_claim_value, extract_candidates, max_depth, filled_parts}

-- The groups found, in order.
unfoldable pub groups_of : (Value → Option String) → List Value → List String
groups_of f [] = []
groups_of f (v ∷ vs) = let rest = groups_of f vs in elim (f v) [ none ↦ rest | some g ↦ g ∷ rest ]

module _ ⦃py : Builtins⦄ where
  -- `.strip().lstrip("/").lower()`
  unfoldable pub slashless : String → String
  unfolding strip lstrip_of
  slashless s = py.lower (lstrip_of (is_code 47) (strip s))

  -- The fallback loop of `_resolve_map_entry`.
  unfoldable pub find_entry : String → Dict Value → Option String
  unfolding slashless truthy str
  find_entry key_norm [] = none
  find_entry key_norm ((k, v) ∷ d) =
      let rest = find_entry key_norm d in
      if slashless k == key_norm && truthy v then some (str v) else rest

  -- `_resolve_map_entry`: the exact key first.
  unfoldable pub resolve_map_entry : Value → Value → Option String
  unfolding str_or_empty find_entry get truthy str lstrip_of
  resolve_map_entry map_obj raw_key = elim (as_dict map_obj) [
    | none ↦ none
    | some d ↦
        let key = str_or_empty raw_key in
        let other = find_entry (py.lower (lstrip_of (is_code 47) key)) d in
        let hit : Option String = elim (get key d) [
          | none ↦ other
          | some v ↦ if truthy v then some (str v) else other
        ] in
        if is_empty key then none else hit
  ]

  -- `list_map` and `value_map` of a rule.
  abbrev pub map_of : String → Dict Value → Value
  unfolding lookup truthy
  map_of name rule = value_or (lookup name rule) (object end)

  -- The group of one candidate: the list map comes first.
  unfoldable pub candidate_group : Dict Value → Value → Option String
  unfolding resolve_map_entry lookup truthy
  candidate_group rule candidate =
      elim (resolve_map_entry (map_of "list_map" rule) candidate >>= none_if_empty) [
        | some group ↦ some group
        | none ↦ resolve_map_entry (map_of "value_map" rule) candidate >>= none_if_empty
      ]

  -- What one rule makes of the claims.
  unfoldable pub rule_groups : Value → Value → List String
  unfolding groups_of candidate_group get_claim_value extract_candidates str_or_empty lookup
  rule_groups claims rule = elim (as_dict rule) [
    | none ↦ []
    | some r ↦
        let claim = str_or_empty (lookup "claim" r) in
        let candidates = extract_candidates max_depth (get_claim_value claims claim) in
        if is_empty claim then [] else groups_of (candidate_group r) candidates
  ]

  abbrev pub alias_prefixes : List String
  alias_prefixes = "role:" ∷ "role_" ∷ "roles:" ∷ "roles_" ∷ "realm:" ∷ "group:" ∷ "groups:" ∷ []

  abbrev pub drop_prefixes : List String → String → String
  unfolding after_prefix
  drop_prefixes [] s = s
  drop_prefixes (p ∷ ps) s =
      drop_prefixes ps (elim (after_prefix p s) [ none ↦ s | some rest ↦ rest ])

  -- `_normalize_alias`
  unfoldable pub normalize_alias : Value → String
  unfolding str_or_empty lstrip_of after_prefix strip
  normalize_alias raw =
      let s = py.lower (lstrip_of (is_code 47) (str_or_empty raw)) in
      if is_empty s then "" else strip (drop_prefixes alias_prefixes s)

  -- The aliases that one map gives.
  unfoldable pub add_aliases : Dict Value → Dict String → Dict String
  unfolding normalize_alias str_or_empty put
  add_aliases [] aliases = aliases
  add_aliases ((k, v) ∷ d) aliases =
      let group = str_or_empty v in
      let alias = normalize_alias (text k) in
      let next = if is_empty alias || is_empty group then aliases else put alias group aliases in
      add_aliases d next

  -- The maps of a rule that are objects.
  abbrev pub map_entries : String → Dict Value → Dict Value
  map_entries name rule = elim (as_dict (map_of name rule)) [ none ↦ [] | some d ↦ d ]

  -- `alias_map`
  unfoldable pub collect_aliases : List Value → Dict String → Dict String
  unfolding add_aliases
  collect_aliases [] aliases = aliases
  collect_aliases (rule ∷ rules) aliases =
      let next : Dict String = elim (as_dict rule) [
        | none ↦ aliases
        | some r ↦
            add_aliases (map_entries "value_map" r) (add_aliases (map_entries "list_map" r) aliases)
      ] in
      collect_aliases rules next

  -- What a candidate of the whole token stands for.
  unfoldable pub alias_groups : Dict String → Value → List String
  unfolding normalize_alias get split_at strip str groups_of
  alias_groups aliases candidate =
      let normalized = normalize_alias candidate in
      let breaks = λ (c : Char). is_code 44 c || is_code 59 c || is_code 124 c || is_code 32 c in
      let parts = filled_parts (split_at breaks (str candidate)) in
      let of_alias = λ (alias : String). get alias aliases >>= none_if_empty in
      let by_parts = groups_of (λ v. of_alias (normalize_alias v)) (map text parts) in
      let found : List String = elim (of_alias normalized) [
        | none ↦ by_parts
        | some direct ↦ direct ∷ []
      ] in
      if is_empty normalized then [] else found

  -- `_map_claims_to_groups`: the rules first, and the aliases when no rule gives a group.
  unfoldable pub map_claims_to_groups : List Value → Value → List String
  unfolding flat_map rule_groups unique_preserve_order collect_aliases alias_groups
      extract_candidates
  map_claims_to_groups mappings claims =
      let aliases = collect_aliases mappings [] in
      let by_alias : List String = elim aliases [
        | [] ↦ []
        | a ∷ as_rest ↦ flat_map (alias_groups (a ∷ as_rest)) (extract_candidates max_depth claims)
      ] in
      elim (flat_map (rule_groups claims) mappings) [
        | [] ↦ by_alias
        | g ∷ gs ↦ unique_preserve_order (g ∷ gs)
      ]
