-- ===== src/Access/Resolve/Laws.antt =====
-- server/auth/user_access.py: a request has the groups that the mappings and its user give it, and the
-- rights of these groups.
use local_ai_rag.Prelude.{
  String, Option, List, ◌++◌, ◌≡◌, refl, sym, ◌⊎◌, inl, inr, ◌↔◌, All, All-append, if◌then◌else◌,
}
use local_ai_rag.Prelude.Any.{Any, map-All, map-Any, All-self}
use local_ai_rag.Text.{strip, strip_idem}
use local_ai_rag.Dict.{Dict}
use local_ai_rag.Value.{Value, Builtins, Fields, object}
use local_ai_rag.Access.Policies.{GroupPolicy}
use local_ai_rag.Access.Merge.{acl_rights}
use local_ai_rag.Access.Merge.Laws.{
  Grants, Distinct, merge_rights-Grants, unique_preserve_order-All, unique_preserve_order-Distinct,
}
use local_ai_rag.Access.Groups.{map_claims_to_groups}
use local_ai_rag.Access.Groups.Aliases.{IsMapped, strip-IsMapped, map_claims_to_groups-IsMapped}
use local_ai_rag.Access.Resolve.{
  AccessProvider, resolve, reload, resolve_user, request_groups, context_of, base_user_groups,
}

module _ ⦃py : Builtins⦄ where
  -- A group of the user, up to outer whitespace: his own or an extra one.
  abbrev pub IsOwn : AccessProvider → Option String → String → Type 0
  IsOwn provider user group = Any (λ g. strip g ≡ strip group) (base_user_groups provider user)

  strip-IsOwn :
      (provider : AccessProvider) (user : Option String) (group : String)
      → IsOwn provider user group
      → IsOwn provider user (strip group)
  strip-IsOwn provider user group a =
      map-Any (λ g same. rw same (sym (strip_idem group))) (base_user_groups provider user) a

  IsOwn-groups :
      (provider : AccessProvider) (user : Option String)
      → All (IsOwn provider user) (base_user_groups provider user)
  IsOwn-groups provider user =
      let base : List String = base_user_groups provider user in
      map-All (λ g a. map-Any (λ h same. rw same refl) base a) base (All-self base)

  request_groups-named :
      (provider : AccessProvider) (user : Option String) (claims : Fields)
      → All
          (λ g. IsMapped provider.claim_group_mappings g ⊎ IsOwn provider user g)
          (request_groups provider user claims)
  unfolding request_groups
  request_groups-named provider user claims =
      let mappings : List Value = provider.claim_group_mappings in
      let Named : String → Type 0 = λ g. IsMapped mappings g ⊎ IsOwn provider user g in
      let stripped : (g : String) → Named g → Named (strip g) = λ g n. elim n [
        | inl a ↦ inl (strip-IsMapped mappings g a)
        | inr a ↦ inr (strip-IsOwn provider user g a)
      ] in
      let mapped : List String = map_claims_to_groups mappings (object claims) in
      let base : List String = base_user_groups provider user in
      unique_preserve_order-All Named stripped (mapped ++ base) (
        All-append Named mapped base
          (map-All (λ g a. inl a) mapped (map_claims_to_groups-IsMapped mappings (object claims)))
          (map-All (λ g a. inr a) base (IsOwn-groups provider user)))

  request_groups-Distinct :
      (provider : AccessProvider) (user : Option String) (claims : Fields)
      → Distinct (request_groups provider user claims)
  unfolding request_groups
  request_groups-Distinct provider user claims = unique_preserve_order-Distinct (
      map_claims_to_groups provider.claim_group_mappings (object claims)
      ++ base_user_groups provider user)

module _ ⦃py : Builtins⦄ (loaded : Option (Dict GroupPolicy × List Value))
    (user_id token : Option String) (claims : Fields) (provider : AccessProvider) where
  -- Every group of a resolved request is, up to outer whitespace, a value of a map that one of the
  -- current mapping rules gives, or the group of the request's user or one of his extra groups; and no
  -- group comes twice. Whatever a token claims, it chooses among these.
  pub resolve-groups :
      (let (context, now) = resolve loaded user_id token claims provider in
        All
          (λ g. IsMapped now.claim_group_mappings g ⊎ IsOwn now context.user_id g)
          context.group_ids
        × Distinct context.group_ids)
  unfolding resolve context_of
  resolve-groups =
      let now = if provider.auto_reload_policies then reload loaded provider else provider in
      let user = resolve_user user_id token claims in
      (request_groups-named now user claims, request_groups-Distinct now user claims)

  -- The rights of a resolved request are the union of those of its groups: a pipeline, command,
  -- classification label or acl tag `x` is in the context just when the current policy of one of the
  -- context's groups has it, stripped and not blank; for acl tags under the new or the old key. The old
  -- field of the context is the new one.
  pub resolve-rights :
      (x : String)
      → (let (context, now) = resolve loaded user_id token claims provider in
          let policies = now.group_policies in
          let Granted = λ (rights : GroupPolicy → List String).
            Any (Grants policies rights x) context.group_ids in
          (Any (λ y. y ≡ x) context.allowed_pipelines ↔ Granted (λ p. p.allowed_pipelines))
          × (Any (λ y. y ≡ x) context.allowed_commands ↔ Granted (λ p. p.allowed_commands))
          × (Any (λ y. y ≡ x) context.classification_labels_all
              ↔ Granted (λ p. p.classification_labels_all))
          × (Any (λ y. y ≡ x) context.acl_tags_any ↔ Granted acl_rights)
          × (context.acl_tags_all ≡ context.acl_tags_any))
  unfolding resolve context_of
  resolve-rights x =
      let now = if provider.auto_reload_policies then reload loaded provider else provider in
      let groups = request_groups now (resolve_user user_id token claims) claims in
      let policies = now.group_policies in
      (
        merge_rights-Grants policies (λ p. p.allowed_pipelines) x groups,
        merge_rights-Grants policies (λ p. p.allowed_commands) x groups,
        merge_rights-Grants policies (λ p. p.classification_labels_all) x groups,
        merge_rights-Grants policies acl_rights x groups,
        refl,
      )
