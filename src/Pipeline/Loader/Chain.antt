-- ===== src/Pipeline/Loader/Chain.antt =====
-- pipeline/loader.py: the chain of `extends` ends, and leaves no trace.
use local_ai_rag.Prelude.{
  String, ℕ, zero, suc, ◌≡◌, refl, subst, inl, inr, false, not, Option, none, if◌then◌else◌,
  Bool-cases, eq_refl,
}
use local_ai_rag.Text.{is_empty}
use local_ai_rag.Dict.{Dict, get, put, remove, get-remove}
use local_ai_rag.Value.{Value, null, Fields, to_dict, lookup, truthy, str, Builtins}
use local_ai_rag.Pipeline.Result.{ok, require, >>=-eq-ok, ok-injective}
use local_ai_rag.Pipeline.Loader.{merge_pipelines}
use local_ai_rag.Pipeline.Loader.Files.{
  FileSystem, read_yaml, select_pipeline, parse_extends_value, inherit, load_doc,
}

lookup-remove : (k : String) (d : Dict Value) → lookup k (remove k d) ≡ null
unfolding lookup
lookup-remove k d =
    let gone : get k (remove k d) ≡ none = rw (get-remove k k d) (rw (eq_refl k) refl) in
    rw (gone, lookup) refl

module _ ⦃py : Builtins⦄ where
  inherit-extends :
      (parent : Dict Value) (child : Fields)
      → truthy (lookup "extends" (inherit parent child)) ≡ false
  unfolding inherit truthy
  inherit-extends parent child =
      let name : Value = lookup "name" (to_dict child) in
      let merged = merge_pipelines parent child in
      rw (lookup-remove "extends" (if truthy name then put "name" name merged else merged)) refl

  -- A document that has been loaded extends nothing.
  pub load_doc-extends :
      (files : FileSystem) (n : ℕ) (path : String) (name : Option String) (d : Dict Value)
      → load_doc files n path name ≡ ok d
      → truthy (lookup "extends" d) ≡ false
  unfolding load_doc
  load_doc-extends files zero path name d h = cc h
  load_doc-extends files (suc n) path name d h =
      let (raw, is_read, r1) = >>=-eq-ok (read_yaml files path) _ h in
      let (child, chosen, r2) = >>=-eq-ok (select_pipeline raw name) _ r1 in
      let extends : Value = lookup "extends" (to_dict child) in
      elim (Bool-cases (truthy extends)) [
        | inr none_left ↦
            let e : to_dict child ≡ d = ok-injective (rw none_left at r2) in
            subst (λ c. truthy (lookup "extends" c) ≡ false) e none_left
        | inl more ↦
            let (target, parent_name) = parse_extends_value (str extends) in
            let (u, filled, r3) =
              >>=-eq-ok (require (not (is_empty target)) "extends target cannot be empty.") _
                (rw more at r2) in
            let (parent_path, located, r4) = >>=-eq-ok (files.locate path target) _ r3 in
            let (parent, loaded, r5) = >>=-eq-ok (load_doc files n parent_path parent_name) _ r4 in
            subst (λ c. truthy (lookup "extends" c) ≡ false) (ok-injective r5)
              (inherit-extends parent child)
      ]
