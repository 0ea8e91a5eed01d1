-- ===== src/Access/Merge.antt =====
-- server/auth/user_access.py: what the groups of a user grant together. Texts of the policies are
-- stripped on the way, and the first of equal texts stays.
pub mod Laws
pub mod Levels
use local_ai_rag.Prelude.{
  String, Option, none, some, List, [], ◌∷◌, ◌++◌, if◌then◌else◌, Bool, ◌||◌,
}
use local_ai_rag.Prelude.Any.{flat_map}
use local_ai_rag.Prelude.Options.{◌>>=◌}
use local_ai_rag.Prelude.Int.{ℤ, leb_ℤ}
use local_ai_rag.Text.{is_empty, strip, strip_opt}
use local_ai_rag.Dict.{Dict, get}
use local_ai_rag.Pipeline.Validator.Rules.{elem}
use local_ai_rag.Access.Policies.{GroupPolicy, none_if_empty}

-- The loop of `_unique_preserve_order` with the texts seen so far.
unfoldable pub unique_after : List String → List String → List String
unfolding strip elem
unique_after seen [] = []
unique_after seen (item ∷ items) =
    let s = strip item in
    let skip = is_empty s || elem s seen in
    let rest = unique_after (if skip then seen else s ∷ seen) items in
    if skip then rest else s ∷ rest

unfoldable pub unique_preserve_order : List String → List String
unfolding unique_after
unique_preserve_order items = unique_after [] items

module _ (policies : Dict GroupPolicy) where
  -- What one group adds to a merged list.
  unfoldable pub granted_by : (GroupPolicy → List String) → String → List String
  unfolding get
  granted_by rights group_id = elim (get group_id policies) [ none ↦ [] | some p ↦ rights p ]

  -- The four merged lists are the same loop over different fields.
  unfoldable pub merge_rights : (GroupPolicy → List String) → List String → List String
  unfolding unique_preserve_order flat_map granted_by
  merge_rights rights group_ids = unique_preserve_order (flat_map (granted_by rights) group_ids)

  -- `_resolve_owner_id` and `_resolve_source_system_id`: the first one that is not blank.
  unfoldable pub first_named : (GroupPolicy → Option String) → List String → Option String
  unfolding get strip_opt
  first_named name [] = none
  first_named name (group_id ∷ group_ids) =
      let rest = first_named name group_ids in
      elim (get group_id policies) [
        | none ↦ rest
        | some p ↦ let s = strip_opt (name p) in if is_empty s then rest else some s
      ]

  -- The levels that the groups' policies give.
  unfoldable pub user_levels : List String → List ℤ
  unfolding get
  user_levels [] = []
  user_levels (group_id ∷ group_ids) =
      let rest = user_levels group_ids in
      elim (get group_id policies >>= λ p. p.user_level) [ none ↦ rest | some n ↦ n ∷ rest ]

-- `max(levels)`, and none where there are none.
unfoldable pub max_level : List ℤ → Option ℤ
max_level [] = none
max_level (n ∷ ns) = elim (max_level ns) [
  | none ↦ some n
  | some m ↦ some (if leb_ℤ m n then n else m)
]

-- `_merge_user_level`
unfoldable pub merge_user_level : Dict GroupPolicy → List String → Option ℤ
unfolding user_levels max_level
merge_user_level policies group_ids = max_level (user_levels policies group_ids)

-- The fields that `_merge_acl_tags_any` extends its list by.
abbrev pub acl_rights : GroupPolicy → List String
acl_rights p = p.acl_tags_any ++ p.acl_tags_all

module _ (policies : Dict GroupPolicy) where
  abbrev pub merge_acl_tags_any : List String → List String
  unfolding merge_rights
  merge_acl_tags_any group_ids = merge_rights policies acl_rights group_ids

  abbrev pub merge_classification_labels : List String → List String
  unfolding merge_rights
  merge_classification_labels group_ids =
      merge_rights policies (λ p. p.classification_labels_all) group_ids

  abbrev pub merge_allowed_pipelines : List String → List String
  unfolding merge_rights
  merge_allowed_pipelines group_ids = merge_rights policies (λ p. p.allowed_pipelines) group_ids

  abbrev pub merge_allowed_commands : List String → List String
  unfolding merge_rights
  merge_allowed_commands group_ids = merge_rights policies (λ p. p.allowed_commands) group_ids
