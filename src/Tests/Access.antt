-- ===== src/Tests/Access.antt =====
-- A user with a token of two roles, his policies, and the consultants that he is shown.
use local_ai_rag.Prelude.{String, true, false, none, some, [], ◌∷◌, ◌≡◌, refl, ◌↔◌, ◌⊎◌, All, List}
use local_ai_rag.Prelude.Any.{Any}
use local_ai_rag.Prelude.Int.{pos}
use local_ai_rag.Value.{Value, Values, Fields, text, items, object, nil, cons, end, field, to_list}
use local_ai_rag.Access.Policies.{GroupPolicy, parse_policy}
use local_ai_rag.Access.Merge.{acl_rights}
use local_ai_rag.Access.Merge.Laws.{Grants, Distinct}
use local_ai_rag.Access.Groups.Aliases.{IsMapped}
use local_ai_rag.Access.Resolve.{AccessProvider, resolve, UserAccessContext}
use local_ai_rag.Access.Resolve.Laws.{IsOwn, resolve-groups, resolve-rights}
use local_ai_rag.Access.Consultants.{filter_consultants, is_allowed}
use local_ai_rag.Access.Consultants.Laws.{IsDefault, filter_consultants-restricted}
use local_ai_rag.Tests.Fixtures.{plain}

abbrev analysts : GroupPolicy
analysts = record {
  allowed_pipelines = " rag" ∷ "chat" ∷ [];
  allowed_commands = [];
  acl_tags_any = "internal" ∷ [];
  classification_labels_all = [];
  user_level = some (pos 2);
  owner_id = none;
  source_system_id = none;
  acl_tags_all = "internal" ∷ [];
}

abbrev guests : GroupPolicy
guests = record analysts { allowed_pipelines = "chat" ∷ []; user_level = some (pos 1) }

-- Roles of a realm stand for groups.
abbrev role_rule : Value
role_rule = object (
    field "claim" (text "realm.roles") (
      field "list_map"
        (object (field "analyst" (text "analysts") (field "guest" (text "guests") end))) end))

abbrev provider : AccessProvider
provider = record {
  user_group_prefix = "user:";
  group_policies = ("analysts", analysts) ∷ ("guests", guests) ∷ [];
  claim_group_mappings = role_rule ∷ [];
  user_extra_groups = [];
  auto_reload_policies = true;
}

abbrev claims : Fields
claims =
    field "realm"
      (object (field "roles" (items (cons (text "guest") (cons (text "/analyst") nil))) end)) end

abbrev context : UserAccessContext
unfolding resolve
context = (resolve none none (some "bearer dev-user: ann") claims provider).0

context-group_ids : context.group_ids ≡ "guests" ∷ "analysts" ∷ "user:ann" ∷ []
unfolding resolve
context-group_ids = refl

context-allowed_pipelines : context.allowed_pipelines ≡ "chat" ∷ "rag" ∷ []
unfolding resolve
context-allowed_pipelines = refl

resolve-groups_example :
    All (λ g. IsMapped (role_rule ∷ []) g ⊎ IsOwn provider (some "ann") g) context.group_ids
    × Distinct context.group_ids
unfolding resolve
resolve-groups_example = resolve-groups none none (some "bearer dev-user: ann") claims provider

resolve-rights_example :
    (Any (λ y. y ≡ "rag") context.allowed_pipelines
      ↔ Any (Grants provider.group_policies (λ p. p.allowed_pipelines) "rag") context.group_ids)
    × (Any (λ y. y ≡ "rag") context.allowed_commands
        ↔ Any (Grants provider.group_policies (λ p. p.allowed_commands) "rag") context.group_ids)
    × (Any (λ y. y ≡ "rag") context.classification_labels_all
        ↔ Any
            (Grants provider.group_policies (λ p. p.classification_labels_all) "rag")
            context.group_ids)
    × (Any (λ y. y ≡ "rag") context.acl_tags_any
        ↔ Any (Grants provider.group_policies acl_rights "rag") context.group_ids)
    × (context.acl_tags_all ≡ context.acl_tags_any)
unfolding resolve
resolve-rights_example =
    resolve-rights none none (some "bearer dev-user: ann") claims provider "rag"

-- A consultant of each pipeline, and the second one as the default.
abbrev rag_consultant : Value
rag_consultant = object (field "id" (text "ada") (field "pipelineName" (text "rag") end))

abbrev chat_consultant : Value
chat_consultant = object (field "id" (text "bob") (field "pipelineName" (text "chat") end))

abbrev consultants : Values
consultants = cons rag_consultant (cons chat_consultant nil)

abbrev templates : Fields
templates = field "consultants" (items consultants) (field "defaultConsultantId" (text "bob") end)

shown_to_analysts :
    filter_consultants (object templates) (some ("rag" ∷ [])) ≡ some (rag_consultant ∷ [], "ada")
unfolding filter_consultants
shown_to_analysts = refl

filter_consultants-restricted_example :
    (shown : List Value) × (id : String) × (filter_consultants
        (object templates)
        (some ("rag" ∷ []))
      ≡ some (shown, id))
    × All (λ c. is_allowed ("rag" ∷ []) c ≡ true) shown
    × All (λ c. (is_allowed ("rag" ∷ []) c ≡ false) ⊎ Any (λ x. x ≡ c) shown) (to_list consultants)
    × IsDefault shown id
unfolding filter_consultants
filter_consultants-restricted_example =
    filter_consultants-restricted templates consultants ("rag" ∷ []) refl

-- A group with no acl tags at all is passed over.
parse_policy-no_acl :
    parse_policy (("allowed_pipelines", items (cons (text "rag") nil)) ∷ []) ≡ none
unfolding parse_policy
parse_policy-no_acl = refl
