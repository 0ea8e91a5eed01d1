-- ===== src/Pipeline/Actions/SetVariables/Laws.antt =====
-- actions/set_variables.py: no attribute changes but those that the rules name, and the transforms keep their
-- words.
use local_ai_rag.Prelude.{
  String, ◌≡◌, ◌≢◌, refl, sym, ap, ◌∙◌, inl, inr, false, not, Option-cases, Option, none, some,
  List, [], ◌∷◌, Bool-cases, All, ◌==◌, eq_iff,
}
use local_ai_rag.Text.{is_empty, contains_text}
use local_ai_rag.Dict.{Dict, get, put, get-put}
use local_ai_rag.Value.{
  Value, Values, items, cons, nil, to_list, as_dict, lookup, stripped_text, Builtins,
}
use local_ai_rag.Pipeline.Result.{require, ok, >>=-eq-ok, ok-injective, Result-cases}
use local_ai_rag.Pipeline.Definitions.{StepDef}
use local_ai_rag.Pipeline.Actions.InboxDispatcher.{text_or}
use local_ai_rag.Pipeline.Actions.SetVariables.{
  field_name, rule_of, input_value, apply_transform, eval_rule, apply_rules, set_variables,
}

not-same : (a b : String) → a ≢ b → (a == b) ≡ false
not-same a b differ = elim (Bool-cases (a == b)) [
  | inl same ↦ absurd (differ ((eq_iff a b).0 same))
  | inr other ↦ other
]

-- The attribute that a rule names.
unfoldable pub set_name : Value → String
unfolding lookup stripped_text
set_name entry = elim (as_dict entry) [ none ↦ "" | some rule ↦ stripped_text (lookup "set" rule) ]

field_name-eq-ok : (v : Value) (s : String) → field_name v ≡ ok s → stripped_text v ≡ s
unfolding field_name
field_name-eq-ok v s h =
    let (u, filled, rest) = >>=-eq-ok (require (not (is_empty (stripped_text v))) _) _ h in
    let (w, no_dot, last) =
      >>=-eq-ok (require (not (contains_text "." (stripped_text v))) _) _ rest in
    ok-injective last

rule_of-eq-ok :
    (entry : Value) (rule : Dict Value) → rule_of entry ≡ ok rule → as_dict entry ≡ some rule
unfolding rule_of
rule_of-eq-ok entry rule h = elim (Option-cases (as_dict entry)) [
  | inl none_r ↦ cc (rw (none_r, rule_of) at h)
  | inr (r, found) ↦ rw (sym (ok-injective (rw (found, rule_of) at h))) found
]

module _ (loads : String → Option Value) ⦃py : Builtins⦄ where
  eval_rule-name :
      (entry : Value) (attributes : Dict Value) (dest : String) (out : Value)
      → eval_rule loads entry attributes ≡ ok (dest, out)
      → set_name entry ≡ dest
  unfolding eval_rule field_name set_name
  eval_rule-name entry attributes dest out h =
      let (rule, is_rule, r1) = >>=-eq-ok (rule_of entry) _ h in
      let (name, named, r2) = >>=-eq-ok (field_name (lookup "set" rule)) _ r1 in
      let (value, given, r3) = >>=-eq-ok (input_value rule attributes) _ r2 in
      let (result, made, r4) =
        >>=-eq-ok
          (apply_transform loads (text_or (lookup "transform" rule) "copy") value
            (lookup name attributes))
          _ r3 in
      let same : name ≡ dest = ap (λ (p : String × Value). p.0) (ok-injective r4) in
      let found : as_dict entry ≡ some rule = rule_of-eq-ok entry rule is_rule in
      rw (found, set_name) (field_name-eq-ok (lookup "set" rule) name named ∙ same)

  apply_rules-others :
      (k : String) (entries : List Value) (attributes : Dict Value)
      → All (λ entry. set_name entry ≢ k) entries
      → get k (apply_rules loads entries attributes).1 ≡ get k attributes
  unfolding apply_rules
  apply_rules-others k [] attributes others = refl
  apply_rules-others k (entry ∷ entries) attributes (other, others) =
      elim (Result-cases (eval_rule loads entry attributes)) [
        | inl (e, fails) ↦ rw (fails, apply_rules) refl
        | inr ((dest, out), made) ↦
            let named = eval_rule-name entry attributes dest out made in
            let differ : (dest == k) ≡ false = not-same dest k (λ e. other (named ∙ e)) in
            let here_it : get k (put dest out attributes) ≡ get k attributes =
              rw (get-put dest k out attributes) (rw differ refl) in
            rw (made, apply_rules)
              (apply_rules-others k entries (put dest out attributes) others ∙ here_it)
      ]

  -- `set_variables` changes no attribute of the state but those that its rules name with `set`, whether it
  -- ends well or raises halfway.
  pub set_variables-others :
      (step : StepDef) (attributes : Dict Value) (entries : Values) (k : String)
      → lookup "rules" step.raw ≡ items entries
      → All (λ entry. set_name entry ≢ k) (to_list entries)
      → get k (set_variables loads step attributes).1 ≡ get k attributes
  unfolding set_variables
  set_variables-others step attributes nil k given others = rw (given, set_variables) refl
  set_variables-others step attributes (cons v vs) k given others =
      rw (given, set_variables) (apply_rules-others k (v ∷ to_list vs) attributes others)
