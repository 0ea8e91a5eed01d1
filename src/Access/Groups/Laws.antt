-- ===== src/Access/Groups/Laws.antt =====
-- server/auth/user_access.py: every group that the claims of a token stand for is a value of a map
-- that the rules give. The token chooses among them and adds none.
use local_ai_rag.Prelude.{
  String, Option, none, some, List, [], ◌∷◌, Bool, true, ◌&&◌, ◌==◌, ◌≡◌, refl, inl, inr,
  Bool-cases, Option-cases, All, arith, subst, sym, some-injective,
}
use local_ai_rag.Prelude.Any.{Any, here, there}
use local_ai_rag.Prelude.Options.{◌>>=◌}
use local_ai_rag.Text.{is_empty, strip}
use local_ai_rag.Text.Chars.{is_code, lstrip_of}
use local_ai_rag.Dict.{Dict, get}
use local_ai_rag.Value.{Value, as_dict, lookup, str, str_or_empty, Builtins, truthy}
use local_ai_rag.Access.Policies.{none_if_empty}
use local_ai_rag.Access.Claims.{extract_candidates, get_claim_value, max_depth}
use local_ai_rag.Access.Groups.{
  find_entry, resolve_map_entry, map_entries, map_of, candidate_group, groups_of, rule_groups,
  slashless,
}

pub groups_of-All :
    (Q : String → Type 0) (f : Value → Option String)
    → ((v : Value) (g : String) → f v ≡ some g → Q g)
    → (vs : List Value) → All Q (groups_of f vs)
unfolding groups_of
groups_of-All Q f h [] = tt
groups_of-All Q f h (v ∷ vs) = elim (Option-cases (f v)) [
  | inl missing ↦ rw (missing, groups_of) (groups_of-All Q f h vs)
  | inr (g, hit) ↦ rw (hit, groups_of) (h v g hit, groups_of-All Q f h vs)
]

module _ ⦃py : Builtins⦄ where
  -- A map's entry is the group `group`, up to outer whitespace.
  abbrev pub Entry : String → String × Value → Type 0
  Entry group e = (truthy e.1 ≡ true) × (strip (str e.1) ≡ strip group)

  -- One of the two maps of a rule has the group as a value.
  pub data RuleNames (group : String) (rule : Value) : Type 0 where
    in_list_map :
        (r : Dict Value)
        → as_dict rule ≡ some r
        → Any (Entry group) (map_entries "list_map" r)
        → RuleNames group rule
    in_value_map :
        (r : Dict Value)
        → as_dict rule ≡ some r
        → Any (Entry group) (map_entries "value_map" r)
        → RuleNames group rule

  get-Entry :
      (k : String) (v : Value) (d : Dict Value)
      → get k d ≡ some v
      → truthy v ≡ true
      → Any (Entry (str v)) d
  unfolding get
  get-Entry k v [] h t = cc h
  get-Entry k v ((j, w) ∷ d) h t = elim (Bool-cases (j == k)) [
    | inl same ↦
        let e : v ≡ w = sym (some-injective (rw (same, get) at h)) in
        here (subst (λ u. truthy u ≡ true) e t, rw e refl)
    | inr other ↦ there (get-Entry k v d (rw (other, get) at h) t)
  ]

  find_entry-Entry :
      (key group : String) (d : Dict Value) → find_entry key d ≡ some group → Any (Entry group) d
  unfolding find_entry
  find_entry-Entry key group [] h = cc h
  find_entry-Entry key group ((k, v) ∷ d) h = elim (Bool-cases (slashless k == key && truthy v)) [
    | inl hit ↦
        let e : str v ≡ group = some-injective (rw hit at h) in
        here (second-true (slashless k == key) (truthy v) hit, rw e refl)
    | inr miss ↦ there (find_entry-Entry key group d (rw miss at h))
  ]
    where
      second-true : (a b : Bool) → (a && b) ≡ true → b ≡ true
      second-true a b both = ground arith

  resolve_map_entry-Entry :
      (map_obj raw_key : Value) (group : String)
      → resolve_map_entry map_obj raw_key ≡ some group
      → (d : Dict Value) × (as_dict map_obj ≡ some d) × Any (Entry group) d
  unfolding resolve_map_entry
  resolve_map_entry-Entry map_obj raw_key group h = elim (Option-cases (as_dict map_obj)) [
    | inl none_d ↦ cc (rw (none_d, resolve_map_entry) at h)
    | inr (d, found) ↦
        let key : String = str_or_empty raw_key in
        let key_norm : String = py.lower (lstrip_of (is_code 47) key) in
        elim (Bool-cases (is_empty key)) [
          | inl blank ↦ cc (rw (found, blank, resolve_map_entry) at h)
          | inr filled ↦ elim (Option-cases (get key d)) [
            | inl missing ↦ (
              d,
              found,
              find_entry-Entry key_norm group d
                  (rw (found, filled, missing, resolve_map_entry) at h),
            )
            | inr (v, hit) ↦ elim (Bool-cases (truthy v)) [
              | inl t ↦
                  let e : str v ≡ group =
                    some-injective (rw (found, filled, hit, t, resolve_map_entry) at h) in
                  (d, found, subst (λ g. Any (Entry g) d) e (get-Entry key v d hit t))
              | inr f ↦ (
                d,
                found,
                find_entry-Entry key_norm group d
                    (rw (found, filled, hit, f, resolve_map_entry) at h),
              )
            ]
          ]
        ]
  ]

  pub named-eq : (o : Option String) (g : String) → (o >>= none_if_empty) ≡ some g → o ≡ some g
  named-eq none g h = cc h
  named-eq (some s) g h = elim (Bool-cases (is_empty s)) [
    | inl blank ↦ cc (rw blank at h)
    | inr filled ↦ rw filled at h
  ]

  map_entries-Any :
      (name group : String) (r d : Dict Value)
      → as_dict (map_of name r) ≡ some d
      → Any (Entry group) d
      → Any (Entry group) (map_entries name r)
  map_entries-Any name group r d found a = rw (found, map_entries) a

  candidate_group-RuleNames :
      (rule candidate : Value) (r : Dict Value) (group : String)
      → as_dict rule ≡ some r
      → candidate_group r candidate ≡ some group
      → RuleNames group rule
  unfolding candidate_group
  candidate_group-RuleNames rule candidate r group is_rule h =
      let listed : Option String =
        resolve_map_entry (map_of "list_map" r) candidate >>= none_if_empty in
      elim (Option-cases listed) [
        | inr (g, hit) ↦
            let e : g ≡ group = some-injective (rw (hit, candidate_group) at h) in
            let (d, found, a) =
              resolve_map_entry-Entry (map_of "list_map" r) candidate g (named-eq _ g hit) in
            in_list_map r is_rule
              (map_entries-Any "list_map" group r d found (subst (λ k. Any (Entry k) d) e a))
        | inl missing ↦
            let (d, found, a) =
              resolve_map_entry-Entry (map_of "value_map" r) candidate group
                (named-eq _ group (rw (missing, candidate_group) at h)) in
            in_value_map r is_rule (map_entries-Any "value_map" group r d found a)
      ]

  pub rule_groups-All :
      (claims rule : Value) → All (λ g. RuleNames g rule) (rule_groups claims rule)
  unfolding rule_groups
  rule_groups-All claims rule = elim (Option-cases (as_dict rule)) [
    | inl none_r ↦ rw (none_r, rule_groups) tt
    | inr (r, found) ↦ elim (Bool-cases (is_empty (str_or_empty (lookup "claim" r)))) [
      | inl blank ↦ rw (found, blank, rule_groups) tt
      | inr filled ↦
          let candidates : List Value =
            extract_candidates max_depth
              (get_claim_value claims (str_or_empty (lookup "claim" r))) in
          let named = λ (v : Value) (g : String) (h : candidate_group r v ≡ some g).
            candidate_group-RuleNames rule v r g found h in
          rw (found, filled, rule_groups)
            (groups_of-All (λ g. RuleNames g rule) (candidate_group r) named candidates)
    ]
  ]
