-- ===== src/Access/Groups/Aliases.antt =====
-- server/auth/user_access.py, `_map_claims_to_groups`: with the aliases of the rules too, every group
-- comes from a map of a rule.
use local_ai_rag.Prelude.{
  String, some, List, [], ◌∷◌, Bool, true, false, ◌||◌, ◌≡◌, refl, inl, inr, Bool-cases,
  Option-cases, List-cases, All, arith, subst, sym,
}
use local_ai_rag.Prelude.Any.{
  Any, map-All, map-Any, All-self, flat_map, All-flat_map, All-flat_map-Any,
}
use local_ai_rag.Prelude.Options.{◌>>=◌}
use local_ai_rag.Text.{is_empty, strip, strip_idem}
use local_ai_rag.Dict.{Dict, get, put, get-All, All-values-put}
use local_ai_rag.Value.{Value, text, as_dict, str, str_or_empty, Builtins, truthy}
use local_ai_rag.Access.Policies.{none_if_empty}
use local_ai_rag.Access.Claims.{extract_candidates, max_depth}
use local_ai_rag.Access.Merge.Laws.{unique_preserve_order-All}
use local_ai_rag.Access.Groups.{
  map_entries, rule_groups, add_aliases, collect_aliases, alias_groups, map_claims_to_groups,
  normalize_alias,
}
use local_ai_rag.Access.Groups.Laws.{
  Entry, RuleNames, in_list_map, in_value_map, named-eq, groups_of-All, rule_groups-All,
}

second-false : (a b : Bool) → (a || b) ≡ false → b ≡ false
second-false a b neither = ground arith

All-Unit : {A : Type 0} (xs : List A) → All (λ x. Unit {0}) xs
All-Unit [] = tt
All-Unit (x ∷ xs) = (tt, All-Unit xs)

module _ ⦃py : Builtins⦄ where
  str_or_empty-truthy : (v : Value) → is_empty (str_or_empty v) ≡ false → truthy v ≡ true
  unfolding str_or_empty
  str_or_empty-truthy v filled = elim (Bool-cases (truthy v)) [
    | inl t ↦ t
    | inr f ↦ cc (rw (f, str_or_empty) at filled)
  ]

  str_or_empty-strip : (v : Value) → truthy v ≡ true → str_or_empty v ≡ strip (str v)
  unfolding str_or_empty
  str_or_empty-strip v t = rw (t, str_or_empty) refl

  -- The aliases of a map stand for its values.
  add_aliases-All :
      (Q : String → Type 0) (d : Dict Value) (aliases : Dict String)
      → All (λ e. (group : String) → Entry group e → Q group) d
      → All (λ e. Q e.1) aliases
      → All (λ e. Q e.1) (add_aliases d aliases)
  unfolding add_aliases
  add_aliases-All Q [] aliases entries known = known
  add_aliases-All Q ((k, v) ∷ d) aliases (entry, entries) known =
      let group : String = str_or_empty v in
      let alias : String = normalize_alias (text k) in
      elim (Bool-cases (is_empty alias || is_empty group)) [
        | inl blank ↦ rw blank (add_aliases-All Q d aliases entries known)
        | inr filled ↦
            let t : truthy v ≡ true =
              str_or_empty-truthy v (second-false (is_empty alias) (is_empty group) filled) in
            let same : strip (str v) ≡ strip group =
              rw (str_or_empty-strip v t) (sym (strip_idem (str v))) in
            rw filled (
              add_aliases-All Q d (put alias group aliases) entries
                (All-values-put Q alias group aliases (entry group (t, same)) known))
      ]

  named_map-All :
      (Q : String → Type 0) (d : Dict Value)
      → ((group : String) → Any (Entry group) d → Q group)
      → All (λ e. (group : String) → Entry group e → Q group) d
  named_map-All Q d h =
      map-All (λ e a group entry. h group (map-Any (λ f same. subst (Entry group) same entry) d a))
        d (All-self d)

  collect_aliases-All :
      (Q : String → Type 0) (rules : List Value) (aliases : Dict String)
      → All (λ rule. (group : String) → RuleNames group rule → Q group) rules
      → All (λ e. Q e.1) aliases
      → All (λ e. Q e.1) (collect_aliases rules aliases)
  unfolding collect_aliases
  collect_aliases-All Q [] aliases named known = known
  collect_aliases-All Q (rule ∷ rules) aliases (names, named) known =
      elim (Option-cases (as_dict rule)) [
        | inl none_r ↦ rw none_r (collect_aliases-All Q rules aliases named known)
        | inr (r, found) ↦
            let lists : Dict Value = map_entries "list_map" r in
            let vals : Dict Value = map_entries "value_map" r in
            let of_lists = named_map-All Q lists (λ g a. names g (in_list_map r found a)) in
            let of_vals = named_map-All Q vals (λ g a. names g (in_value_map r found a)) in
            rw found (
              collect_aliases-All Q rules _ named
                (add_aliases-All Q vals _ of_vals (add_aliases-All Q lists aliases of_lists known)))
      ]

  of_alias-All :
      (Q : String → Type 0) (aliases : Dict String) (alias group : String)
      → All (λ e. Q e.1) aliases
      → (get alias aliases >>= none_if_empty) ≡ some group
      → Q group
  of_alias-All Q aliases alias group known h =
      get-All Q alias group aliases known (named-eq (get alias aliases) group h)

  alias_groups-All :
      (Q : String → Type 0) (aliases : Dict String)
      → All (λ e. Q e.1) aliases
      → (candidate : Value) → All Q (alias_groups aliases candidate)
  unfolding alias_groups
  alias_groups-All Q aliases known candidate =
      let normalized : String = normalize_alias candidate in
      elim (Bool-cases (is_empty normalized)) [
        | inl blank ↦ rw (blank, alias_groups) tt
        | inr filled ↦ elim (Option-cases (get normalized aliases >>= none_if_empty)) [
          | inr (group, direct) ↦
              rw (filled, direct, alias_groups)
                (of_alias-All Q aliases normalized group known direct, tt)
          | inl missing ↦
              rw (filled, missing, alias_groups)
                (groups_of-All Q _ (λ v g h. of_alias-All Q aliases (normalize_alias v) g known h)
                  _)
        ]
      ]

  -- A rule among the rules has a map with the group as a value.
  abbrev pub IsMapped : List Value → String → Type 0
  IsMapped mappings group = Any (RuleNames group) mappings

  strip-Entry : (group : String) (e : String × Value) → Entry group e → Entry (strip group) e
  strip-Entry group e (t, same) = (t, rw same (sym (strip_idem group)))

  strip-RuleNames :
      (group : String) (rule : Value) → RuleNames group rule → RuleNames (strip group) rule
  strip-RuleNames group rule (in_list_map r found a) =
      in_list_map r found (map-Any (strip-Entry group) (map_entries "list_map" r) a)
  strip-RuleNames group rule (in_value_map r found a) =
      in_value_map r found (map-Any (strip-Entry group) (map_entries "value_map" r) a)

  pub strip-IsMapped :
      (mappings : List Value) (group : String)
      → IsMapped mappings group
      → IsMapped mappings (strip group)
  strip-IsMapped mappings group a = map-Any (strip-RuleNames group) mappings a

  IsMapped-rules :
      (mappings : List Value)
      → All (λ rule. (group : String) → RuleNames group rule → IsMapped mappings group) mappings
  IsMapped-rules mappings =
      map-All
        (λ rule a group named.
          map-Any (λ other same. subst (RuleNames group) same named) mappings a)
        mappings (All-self mappings)

  -- Every group of the claims is a value of a map that one of the rules gives.
  pub map_claims_to_groups-IsMapped :
      (mappings : List Value) (claims : Value)
      → All (IsMapped mappings) (map_claims_to_groups mappings claims)
  unfolding map_claims_to_groups
  map_claims_to_groups-IsMapped mappings claims =
      let by_rules : List String = flat_map (rule_groups claims) mappings in
      let aliases : Dict String = collect_aliases mappings [] in
      let known =
        collect_aliases-All (IsMapped mappings) mappings [] (IsMapped-rules mappings) tt in
      let explicit : All (IsMapped mappings) by_rules =
        All-flat_map-Any (λ rule group. RuleNames group rule) (rule_groups claims)
          (rule_groups-All claims) mappings in
      elim (List-cases by_rules) [
        | inr (g, gs, e) ↦
            let listed = subst (All (IsMapped mappings)) e explicit in
            rw (e, map_claims_to_groups)
              (unique_preserve_order-All (IsMapped mappings) (strip-IsMapped mappings) (g ∷ gs)
                listed)
        | inl none_found ↦ elim (List-cases aliases) [
          | inl no_alias ↦ rw (none_found, no_alias, map_claims_to_groups) tt
          | inr (a, rest, e) ↦
              rw (none_found, e, map_claims_to_groups)
                (All-flat_map (alias_groups (a ∷ rest)) (IsMapped mappings) (λ v. Unit)
                  (λ v u.
                    alias_groups-All (IsMapped mappings) (a ∷ rest)
                      (subst (All (λ p. IsMapped mappings p.1)) e known) v)
                  (extract_candidates max_depth claims)
                  (All-Unit (extract_candidates max_depth claims)))
        ]
      ]
