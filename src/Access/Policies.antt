-- ===== src/Access/Policies.antt =====
-- server/auth/policies_provider.py: the policies of groups, and how `JsonAuthPoliciesProvider.load`
-- reads them from the two JSON documents. A document is `none` where it cannot be read.
use local_ai_rag.Prelude.{
  String, Option, none, some, List, [], ◌∷◌, ◌++◌, if◌then◌else◌, true, false,
}
use local_ai_rag.Prelude.Int.{ℤ, pos}
use local_ai_rag.Prelude.Options.{◌>>=◌}
use local_ai_rag.Text.{is_empty, strip}
use local_ai_rag.Dict.{Dict, put}
use local_ai_rag.Value.{
  Value, null, flag, num, items, nil, to_list, as_dict, as_list, lookup, str, str_or_empty,
  value_or, Builtins, truthy,
}

pub record GroupPolicy : Type 0 where
  pub allowed_pipelines : List String
  pub allowed_commands : List String
  pub acl_tags_any : List String
  pub classification_labels_all : List String
  pub user_level : Option ℤ
  pub owner_id : Option String
  pub source_system_id : Option String
  pub acl_tags_all : List String

-- `s or None`
abbrev pub none_if_empty : String → Option String
none_if_empty s = if is_empty s then none else some s

module _ ⦃py : Builtins⦄ where
  -- `[str(x) for x in xs if str(x).strip()]`
  unfoldable pub text_list : List Value → List String
  unfolding str strip
  text_list [] = []
  text_list (v ∷ vs) =
      let rest = text_list vs in if is_empty (strip (str v)) then rest else str v ∷ rest

  -- `_normalize_int`; a value that is no number goes through its text.
  unfoldable pub normalize_int : Value → Option ℤ
  unfolding str strip
  normalize_int null = none
  normalize_int (flag true) = some (pos 1)
  normalize_int (flag false) = some (pos 0)
  normalize_int (num n) = some n
  normalize_int v = let s = strip (str v) in if is_empty s then none else py.int_of_float s

  -- The acl tags, with the old key where the new one is missing.
  unfoldable pub acl_value : Dict Value → Value
  unfolding lookup
  acl_value payload = elim (lookup "acl_tags_any" payload) [
    | null ↦ lookup "acl_tags_all" payload
    | v ↦ v
  ]

  -- One group's policy, or `none` for a group that is passed over.
  unfoldable pub parse_policy : Dict Value → Option GroupPolicy
  unfolding acl_value lookup truthy str_or_empty normalize_int text_list
  parse_policy payload = do
    acl ← as_list (acl_value payload)
    labels ← as_list (value_or (lookup "classification_labels_all" payload) (items nil))
    allowed ← as_list (value_or (lookup "allowed_pipelines" payload) (items nil))
    commands ← as_list (value_or (lookup "allowed_commands" payload) (items nil))
    some (record {
      allowed_pipelines = text_list allowed;
      allowed_commands = text_list commands;
      acl_tags_any = text_list acl;
      classification_labels_all = text_list labels;
      user_level = normalize_int (lookup "user_level" payload);
      owner_id = none_if_empty (str_or_empty (lookup "owner_id" payload));
      source_system_id = none_if_empty (str_or_empty (lookup "source_system_id" payload));
      acl_tags_all = text_list acl;
    })

  -- The loop over the groups.
  unfoldable pub parse_policies : Dict Value → Dict GroupPolicy → Dict GroupPolicy
  unfolding parse_policy put
  parse_policies [] policies = policies
  parse_policies ((group_id, payload) ∷ groups) policies =
      let next : Dict GroupPolicy = elim (as_dict payload >>= parse_policy) [
        | none ↦ policies
        | some p ↦ put group_id p policies
      ] in
      parse_policies groups next

  -- `_load_extra_claim_group_mappings`
  unfoldable pub load_extra_claim_group_mappings : Option Value → List Value
  load_extra_claim_group_mappings (some (items rules)) = to_list rules
  load_extra_claim_group_mappings raw = []

  -- `load`; `none` is the AttributeError on a document that is no mapping.
  unfoldable pub load_policies :
      Option Value → Option Value → Option (Dict GroupPolicy × List Value)
  unfolding parse_policies load_extra_claim_group_mappings lookup truthy
  load_policies none extra = some ([], [])
  load_policies (some raw) extra = do
    document ← as_dict raw
    let mappings : List Value =
        elim (value_or (lookup "claim_group_mappings" document) (items nil)) [
          | items rules ↦ to_list rules
          | v ↦ []
        ]
    some (elim (as_dict (lookup "groups" document)) [
      | none ↦ ([], [])
      | some groups ↦ (parse_policies groups [], mappings ++ load_extra_claim_group_mappings extra)
    ])
