-- ===== src/Access/Resolve.antt =====
-- server/auth/user_access.py, `DevUserAccessProvider`: who makes a request and what he may do. A
-- reload of the policies is `none` where the provider of policies raises.
pub mod Laws
use Prim.Native.Char.{Char}
use Prim.Native.String.{◌++◌ as append_text, [] as empty_text, ◌∷◌ as cons_char}
use local_ai_rag.Prelude.{
  String, Option, none, some, List, [], ◌∷◌, ◌++◌, if◌then◌else◌, Bool, true, false, not, ◌||◌,
  is_some,
}
use local_ai_rag.Prelude.Options.{◌>>=◌}
use local_ai_rag.Prelude.Int.{ℤ}
use local_ai_rag.Text.{is_empty, strip, after_prefix}
use local_ai_rag.Text.Chars.{is_code, first_chars, skip_chars, strip_of, map_chars}
use local_ai_rag.Dict.{Dict, get}
use local_ai_rag.Value.{
  Value, null, object, Fields, to_dict, lookup, str, value_or, Builtins, truthy,
}
use local_ai_rag.Access.Policies.{GroupPolicy, none_if_empty}
use local_ai_rag.Access.Merge.{
  unique_preserve_order, merge_rights, merge_acl_tags_any, merge_classification_labels,
  merge_allowed_pipelines, merge_allowed_commands, merge_user_level, first_named,
}
use local_ai_rag.Access.Groups.{map_claims_to_groups}

pub record UserAccessContext : Type 0 where
  pub user_id : Option String
  pub is_anonymous : Bool
  pub group_ids : List String
  pub allowed_pipelines : List String
  pub allowed_commands : List String
  pub acl_tags_any : List String
  pub classification_labels_all : List String
  pub user_level : Option ℤ
  pub owner_id : Option String
  pub source_system_id : Option String
  pub acl_tags_all : List String

-- The fields of the provider.
pub record AccessProvider : Type 0 where
  pub user_group_prefix : String
  pub group_policies : Dict GroupPolicy
  pub claim_group_mappings : List Value
  pub user_extra_groups : Dict (List String)
  pub auto_reload_policies : Bool

-- A reload keeps the last good policies.
unfoldable pub reload : Option (Dict GroupPolicy × List Value) → AccessProvider → AccessProvider
reload none provider = provider
reload (some (policies, mappings)) provider = record provider {
  group_policies = policies;
  claim_group_mappings = mappings;
}

-- `a or b` on optional texts
abbrev or_text : Option String → Option String → Option String
or_text a b = elim (a >>= none_if_empty) [ none ↦ b | some s ↦ some s ]

module _ ⦃py : Builtins⦄ where
  -- `_parse_dev_token`
  unfoldable pub parse_dev_token : Option String → Option String
  unfolding strip after_prefix skip_chars
  parse_dev_token none = none
  parse_dev_token (some token) =
      let bare = strip token in
      let candidate : Option String = do
        _ ← after_prefix "bearer " (py.lower bare)
        rest ← after_prefix "dev-user:" (strip (skip_chars 7 bare))
        none_if_empty (strip rest)
      in if is_empty token then none else candidate

  -- A character that an id may have, and `_` for every other.
  unfoldable pub safe_char : Char → Char
  safe_char c = if py.is_alnum c || is_code 95 c || is_code 45 c then c else "_"

  -- `_derive_user_id_from_claims`
  unfoldable pub derive_user_id_from_claims : Dict Value → Option String
  unfolding lookup truthy str strip safe_char map_chars strip_of first_chars
  derive_user_id_from_claims claims =
      let raw =
        value_or (value_or (lookup "preferred_username" claims) (lookup "sub" claims))
          (lookup "email" claims) in
      let id : String → Option String =
        λ s. none_if_empty (first_chars 64 (strip_of (is_code 95) (map_chars safe_char s))) in
      elim raw [ null ↦ none | v ↦ none_if_empty (strip (str v)) >>= id ]

  -- The group of a user alone, and the extra groups that he has.
  unfoldable pub base_user_groups : AccessProvider → Option String → List String
  unfolding get
  base_user_groups provider user = elim (user >>= none_if_empty) [
    | none ↦ []
    | some id ↦
        append_text provider.user_group_prefix id
        ∷ (elim (get id provider.user_extra_groups) as (λ o. List String) [
          | none ↦ []
          | some groups ↦ groups
        ])
  ]

  -- The groups of a request, those of its claims first.
  unfoldable pub request_groups : AccessProvider → Option String → Fields → List String
  unfolding unique_preserve_order map_claims_to_groups base_user_groups
  request_groups provider user claims = unique_preserve_order (
      map_claims_to_groups provider.claim_group_mappings (object claims)
      ++ base_user_groups provider user)

  unfoldable pub resolve_user : Option String → Option String → Fields → Option String
  unfolding parse_dev_token derive_user_id_from_claims
  resolve_user user_id token claims =
      or_text (or_text (parse_dev_token token) user_id)
        (derive_user_id_from_claims (to_dict claims))

  -- The context of a user with the groups `group_ids`.
  unfoldable pub context_of : Dict GroupPolicy → Option String → List String → UserAccessContext
  unfolding merge_rights merge_user_level first_named
  context_of policies user group_ids = record {
    user_id = user;
    is_anonymous = not (is_some (user >>= none_if_empty));
    group_ids = group_ids;
    allowed_pipelines = merge_allowed_pipelines policies group_ids;
    allowed_commands = merge_allowed_commands policies group_ids;
    acl_tags_any = merge_acl_tags_any policies group_ids;
    classification_labels_all = merge_classification_labels policies group_ids;
    user_level = merge_user_level policies group_ids;
    owner_id = first_named policies (λ p. p.owner_id) group_ids;
    source_system_id = first_named policies (λ p. p.source_system_id) group_ids;
    acl_tags_all = merge_acl_tags_any policies group_ids;
  }

  -- `resolve`, with what a reload of the policies would give.
  unfoldable pub resolve :
      Option (Dict GroupPolicy × List Value)
      → Option String
      → Option String
      → Fields
      → AccessProvider
      → UserAccessContext × AccessProvider
  unfolding reload resolve_user request_groups context_of
  resolve loaded user_id token claims provider =
      let now = if provider.auto_reload_policies then reload loaded provider else provider in
      let user = resolve_user user_id token claims in
      (context_of now.group_policies user (request_groups now user claims), now)
