-- ===== src/Text.antt =====
-- Python's operations on `str` that the program uses everywhere: truth value, `strip`, `startswith`
-- with the slice behind the prefix, and whitespace splitting. A text is a list of code points.
pub mod Chars
use Prim.Native.Char.{Char, code}
use Prim.Native.String.{[], ◌∷◌, ◌++◌ as append_text}
use text.Mathlib.TextEquality.{Char-path}
use text.Mathlib.TextLemmas.{nil-append, cons-append}
use local_ai_rag.Prelude.{
  String, ◌≡◌, refl, ap, sym, ◌∙◌, arith, inl, inr, Bool, true, false, ◌&&◌, ◌||◌, leb,
  if◌then◌else◌, Bool-cases, Option, none, some, is_some,
}

-- `not s`
abbrev pub is_empty : String → Bool
is_empty [] = true
is_empty (c ∷ s) = false

-- `str.isspace` of one character: Python's whitespace.
unfoldable pub is_space : Char → Bool
is_space c =
    let n = code c in
    (leb 9 n && leb n 13)
    || (leb 28 n && leb n 32)
    || (leb 133 n && leb n 133)
    || (leb 160 n && leb n 160)
    || (leb 5760 n && leb n 5760)
    || (leb 8192 n && leb n 8202)
    || (leb 8232 n && leb n 8233)
    || (leb 8239 n && leb n 8239)
    || (leb 8287 n && leb n 8287)
    || (leb 12288 n && leb n 12288)

-- One more character on the left of a text that is stripped on its right.
abbrev trim_cons : Bool → Char → String → String
trim_cons space c [] = if space then [] else c ∷ []
trim_cons space c (d ∷ s) = c ∷ d ∷ s

lstrip : String → String
lstrip [] = []
lstrip (c ∷ s) = let rest = lstrip s in if is_space c then rest else c ∷ s

rstrip : String → String
rstrip [] = []
rstrip (c ∷ s) = trim_cons (is_space c) c (rstrip s)

-- `s.strip()`
unfoldable pub strip : String → String
unfolding lstrip rstrip is_space
strip s = rstrip (lstrip s)

-- `(s or "").strip()` at an `Optional[str]`
unfoldable pub strip_opt : Option String → String
unfolding strip
strip_opt none = []
strip_opt (some s) = strip s

same_char : Char → Char → Bool
same_char c d = leb (code c) (code d) && leb (code d) (code c)

-- The text behind the prefix `p`, where `s.startswith(p)`.
unfoldable pub after_prefix : String → String → Option String
unfolding same_char
after_prefix [] s = some s
after_prefix (c ∷ p) [] = none
after_prefix (c ∷ p) (d ∷ s) = if same_char c d then after_prefix p s else none

module _ (c : Char) where
  rstrip_idem_cons :
      (t : String) → rstrip t ≡ t → rstrip (trim_cons (is_space c) c t) ≡ trim_cons (is_space c) c t
  unfolding rstrip
  rstrip_idem_cons [] h = elim (Bool-cases (is_space c)) [ inl e ↦ rw e refl | inr e ↦ rw e (rw e) ]
  rstrip_idem_cons (d ∷ s) h = rw h

  -- A text that begins with no space keeps its first character under `rstrip`.
  lstrip-rstrip_head :
      (t : String)
      → is_space c ≡ false
      → lstrip (trim_cons (is_space c) c t) ≡ trim_cons (is_space c) c t
  unfolding lstrip
  lstrip-rstrip_head [] e = rw e (rw e)
  lstrip-rstrip_head (d ∷ s) e = rw e

rstrip_idem : (s : String) → rstrip (rstrip s) ≡ rstrip s
unfolding rstrip
rstrip_idem [] = refl
rstrip_idem (c ∷ s) = rstrip_idem_cons c (rstrip s) (rstrip_idem s)

lstrip-strip : (s : String) → lstrip (rstrip (lstrip s)) ≡ rstrip (lstrip s)
unfolding lstrip rstrip
lstrip-strip [] = refl
lstrip-strip (c ∷ s) = elim (Bool-cases (is_space c)) [
  | inl e ↦ rw e (lstrip-strip s)
  | inr e ↦ rw e (lstrip-rstrip_head c (rstrip s) e)
]

-- Stripping a stripped text changes nothing.
pub strip_idem : (s : String) → strip (strip s) ≡ strip s
unfolding strip
strip_idem s = ap rstrip (lstrip-strip s) ∙ rstrip_idem (lstrip s)

-- `needle in s`
unfoldable pub contains_text : String → String → Bool
unfolding after_prefix
contains_text needle [] = is_empty needle
contains_text needle (c ∷ s) = is_some (after_prefix needle (c ∷ s)) || contains_text needle s

-- `s.replace("{}", value)`
unfoldable pub fill_braces : String → String → String
unfolding same_char
fill_braces value [] = []
fill_braces value (c ∷ []) = c ∷ []
fill_braces value (c ∷ d ∷ s) =
    let filled = append_text value (fill_braces value s) in
    let kept = c ∷ fill_braces value (d ∷ s) in
    if leb 123 (code c) && leb (code c) 123 && leb 125 (code d) && leb (code d) 125
    then filled
    else kept

same_char→eq : (c d : Char) → same_char c d ≡ true → c ≡ d
unfolding same_char
same_char→eq c d h = Char-path c d (ground arith)

-- A prefix that is taken off stood in front.
pub after_prefix-append :
    (p s rest : String) → after_prefix p s ≡ some rest → s ≡ append_text p rest
unfolding after_prefix
after_prefix-append [] s rest h = let e : s ≡ rest = cc h in e ∙ sym (nil-append rest)
after_prefix-append (c ∷ p) [] rest h = cc
after_prefix-append (c ∷ p) (d ∷ s) rest h = elim (Bool-cases (same_char c d)) [
  | inr differ ↦ cc (rw (differ, after_prefix) at h)
  | inl same ↦
      let ih = after_prefix-append p s rest (rw (same, after_prefix) at h) in
      rw (same_char→eq c d same, cons-append, ih) refl
]

strip_both_sides : strip "  a b\n" ≡ "a b"
unfolding strip
strip_both_sides = refl

after_prefix_hit : after_prefix "[BM25:]" "[BM25:] x" ≡ some " x"
unfolding after_prefix
after_prefix_hit = refl
