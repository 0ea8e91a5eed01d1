-- ===== src/Text/Chars.antt =====
-- Python's operations on `str` that look at single characters: `split` at one, `strip` and `lstrip` of a
-- set of them, and the first n.
use Prim.Native.Char.{Char, code}
use Prim.Native.String.{[], ◌∷◌, ◌++◌ as append_text}
use local_ai_rag.Prelude.{
  String, ℕ, zero, suc, Bool, List, [] as no_texts, ◌∷◌ as cons_text, same_nat, if◌then◌else◌, ◌≡◌,
  refl,
}

-- A character by its code point.
abbrev pub is_code : ℕ → Char → Bool
is_code n c = same_nat (code c) n

-- One more character in front of the first part.
abbrev grow : Char → List String → List String
grow c no_texts = cons_text (c ∷ []) no_texts
grow c (cons_text s rest) = cons_text (c ∷ s) rest

-- The parts between the characters with a property: `s.split(",")`.
unfoldable pub split_at : (Char → Bool) → String → List String
split_at p [] = cons_text [] no_texts
split_at p (c ∷ s) = let rest = split_at p s in if p c then cons_text [] rest else grow c rest

-- `s.lstrip(chars)`
unfoldable pub lstrip_of : (Char → Bool) → String → String
lstrip_of p [] = []
lstrip_of p (c ∷ s) = let rest = lstrip_of p s in if p c then rest else c ∷ s

abbrev trim_of : Bool → Char → String → String
trim_of cut c [] = if cut then [] else c ∷ []
trim_of cut c (d ∷ s) = c ∷ d ∷ s

-- `s.rstrip(chars)`
unfoldable pub rstrip_of : (Char → Bool) → String → String
rstrip_of p [] = []
rstrip_of p (c ∷ s) = trim_of (p c) c (rstrip_of p s)

-- `s.strip(chars)`
unfoldable pub strip_of : (Char → Bool) → String → String
unfolding lstrip_of rstrip_of
strip_of p s = rstrip_of p (lstrip_of p s)

-- `len(s)`
abbrev pub char_count : String → ℕ
char_count [] = 0
char_count (c ∷ s) = suc (char_count s)

-- `s[:n]`
unfoldable pub first_chars : ℕ → String → String
first_chars zero s = []
first_chars (suc n) [] = []
first_chars (suc n) (c ∷ s) = c ∷ first_chars n s

-- `s[n:]`
unfoldable pub skip_chars : ℕ → String → String
skip_chars zero s = s
skip_chars (suc n) [] = []
skip_chars (suc n) (c ∷ s) = skip_chars n s

-- `"".join(f(c) for c in s)` where `f` gives one character.
unfoldable pub map_chars : (Char → Char) → String → String
map_chars f [] = []
map_chars f (c ∷ s) = f c ∷ map_chars f s

-- `sep.join(parts)`
unfoldable pub join : String → List String → String
join sep no_texts = []
join sep (cons_text s no_texts) = s
join sep (cons_text s (cons_text t rest)) =
    append_text s (append_text sep (join sep (cons_text t rest)))

split_dots : split_at (is_code 46) "a..b" ≡ cons_text "a" (cons_text "" (cons_text "b" no_texts))
unfolding split_at
split_dots = refl

strip_of_both : strip_of (is_code 95) "__a_b_" ≡ "a_b"
unfolding strip_of
strip_of_both = refl
