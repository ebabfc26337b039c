-- ===== src/Config/Printed/Texts.antt =====
-- The lines of a configuration file, as they are written, and what is read of each.
use Prim.Native.Char.{Char, code}
use lnst.Prelude.{
  ℕ, String, ◌≡◌, refl, ap, ◌∙◌, none, some, List, ◌∷◌, Bool, true, false, ◌&&◌, arith, string_eq,
  nat_beq, Bool-cases, inl, inr,
}
use lnst.Prelude.Text.{is_empty, lstrip, rstrip, strip, is_space}
use lnst.Config.Parser.{
  Operator, assign, add, Line, is_dropped, is_word_char, word, after, read_operator, read_option,
  option_from, section_from, read_section, preprocess_lines, has_newline, with_value,
}

unfoldable pub cat : String → String → String
cat String.[] t = t
cat (String.◌∷◌ c s) t = String.◌∷◌ c (cat s t)

abbrev pub symbol : Operator → String
symbol assign = "="
symbol add = "+="

-- name=value or name+=value
abbrev pub print_line : Line → String
print_line opt = cat opt.name (cat (symbol opt.operator) opt.value)

-- A line as readlines gives it.
abbrev pub ended : String → String
ended s = cat s "\n"

abbrev pub print_section : String → String
print_section name = cat "[" (cat name "]")

-- Only characters of \w
unfoldable pub all_word : String → Bool
all_word String.[] = true
all_word (String.◌∷◌ c s) = is_word_char (code c) && all_word s

abbrev pub IsName : String → Type 0
IsName s = (all_word s ≡ true) × (is_empty s ≡ false)

-- A value has no space at its ends, and is on one line.
pub record IsPrintable (opt : Line) : Type 0 where
  pub name : IsName opt.name
  pub trimmed_left : lstrip is_space opt.value ≡ opt.value
  pub trimmed_right : rstrip is_space opt.value ≡ opt.value
  pub one_line : has_newline opt.value ≡ false

word-cat :
    (w : String) (c : Char) (t : String)
    → all_word w ≡ true
    → is_word_char (code c) ≡ false
    → word (cat w (String.◌∷◌ c t)) ≡ (w, String.◌∷◌ c t)
unfolding word cat all_word
word-cat String.[] c t h ends = rw ends refl
word-cat (String.◌∷◌ d w) c t h ends = elim (Bool-cases (is_word_char (code d))) [
  | inl inside ↦ rw (inside, word-cat w c t (rw inside at h) ends) refl
  | inr never ↦ absurd (cc (rw never at h))
]

not_space : (c : ℕ) → is_word_char c ≡ true → is_space c ≡ false
not_space c h = ground arith

not_sign : (c : ℕ) → is_word_char c ≡ true → (nat_beq c b'#' ≡ false) × (nat_beq c b'[' ≡ false)
not_sign c h = ground arith

and_false : (b : Bool) → b && false ≡ false
and_false true = refl
and_false false = refl

-- A text with no space at its end, and a character in front
tight_cons :
    (c : Char) (s : String)
    → is_empty s ≡ false
    → rstrip is_space s ≡ s
    → rstrip is_space (String.◌∷◌ c s) ≡ String.◌∷◌ c s
unfolding rstrip
tight_cons c s some_char h = rw (h, some_char, and_false (is_space (code c))) refl

tight_cat :
    (w t : String)
    → is_empty t ≡ false
    → rstrip is_space t ≡ t
    → (is_empty (cat w t) ≡ false) × (rstrip is_space (cat w t) ≡ cat w t)
unfolding cat
tight_cat String.[] t some_char h = (some_char, h)
tight_cat (String.◌∷◌ c w) t some_char h =
    let r = tight_cat w t some_char h in (refl, tight_cons c (cat w t) r.0 r.1)

tight_symbol :
    (op : Operator) (v : String)
    → rstrip is_space v ≡ v
    → (is_empty (cat (symbol op) v) ≡ false)
      × (rstrip is_space (cat (symbol op) v) ≡ cat (symbol op) v)
unfolding cat rstrip
tight_symbol assign v h = (refl, rw h refl)
tight_symbol add v h = (refl, rw h refl)

kept :
    (line : String) (lines : List String)
    → is_dropped (ended line) ≡ false
    → strip (ended line) ≡ line
    → preprocess_lines (ended line ∷ lines) ≡ line ∷ preprocess_lines lines
unfolding preprocess_lines
kept line lines h t = rw (h, t) refl

rstrip-ended : (s : String) → rstrip is_space (ended s) ≡ rstrip is_space s
unfolding rstrip cat
rstrip-ended String.[] = refl
rstrip-ended (String.◌∷◌ c s) = rw (rstrip-ended s) refl

strip_line :
    (c : Char) (s : String)
    → is_space (code c) ≡ false
    → rstrip is_space (String.◌∷◌ c s) ≡ String.◌∷◌ c s
    → strip (ended (String.◌∷◌ c s)) ≡ String.◌∷◌ c s
unfolding strip lstrip
strip_line c s h t =
    ap (λ (r : String). lstrip is_space r) (rstrip-ended (String.◌∷◌ c s) ∙ t) ∙ rw h refl

stays :
    (c : Char) (s : String)
    → nat_beq (code c) b'#' ≡ false
    → is_space (code c) ≡ false
    → is_dropped (String.◌∷◌ c s) ≡ false
unfolding after lstrip
stays c s h t = rw (is_dropped, after, h, lstrip, t) refl

first_char : (b c : Bool) → b && c ≡ true → b ≡ true
first_char true c h = refl
first_char false c h = absurd (cc)

on_name :
    (name t : String) (lines : List String)
    → IsName name
    → (is_empty t ≡ false) × (rstrip is_space t ≡ t)
    → preprocess_lines (ended (cat name t) ∷ lines) ≡ cat name t ∷ preprocess_lines lines
unfolding cat all_word
on_name String.[] t lines p h = absurd (cc (p.1))
on_name (String.◌∷◌ c s) t lines p h =
    let first = first_char (is_word_char (code c)) (all_word s) p.0 in
    let r = tight_cat s t h.0 h.1 in
    kept (String.◌∷◌ c (cat s t)) lines
      (stays c (ended (cat s t)) (not_sign (code c) first).0 (not_space (code c) first))
      (strip_line c (cat s t) (not_space (code c) first) (tight_cons c (cat s t) r.0 r.1))

bracket : rstrip is_space "]" ≡ "]"
unfolding rstrip
bracket = refl

pub preprocess_line :
    (opt : Line) (lines : List String)
    → IsPrintable opt
    → preprocess_lines (ended (print_line opt) ∷ lines) ≡ print_line opt ∷ preprocess_lines lines
preprocess_line opt lines p =
    on_name opt.name (cat (symbol opt.operator) opt.value) lines p.name
      (tight_symbol opt.operator opt.value p.trimmed_right)

pub preprocess_section :
    (name : String) (lines : List String)
    → IsName name
    → preprocess_lines (ended (print_section name) ∷ lines)
      ≡ print_section name ∷ preprocess_lines lines
unfolding cat
preprocess_section name lines p =
    kept (print_section name) lines (stays "[" (ended (cat name "]")) refl refl) (
      strip_line "[" (cat name "]") refl
        (tight_cat "[" (cat name "]") (tight_cat name "]" refl bracket).0
          (tight_cat name "]" refl bracket).1).1)

option_from_lem :
    (name value : String) (op : Operator)
    → IsName name
    → lstrip is_space value ≡ value
    → has_newline value ≡ false
    → option_from (name, cat (symbol op) value)
      ≡ some (record { name = name; operator = op; value = value })
unfolding option_from read_operator after lstrip cat with_value
option_from_lem name value assign p t l = rw (option_from, p.1, with_value, t, l) refl
option_from_lem name value add p t l = rw (option_from, p.1, with_value, t, l) refl

word-symbol :
    (name value : String) (op : Operator)
    → IsName name
    → word (cat name (cat (symbol op) value)) ≡ (name, cat (symbol op) value)
unfolding cat
word-symbol name value assign p = word-cat name "=" value p.0 refl
word-symbol name value add p = word-cat name "+" (cat "=" value) p.0 refl

pub read_option_print : (opt : Line) → IsPrintable opt → read_option (print_line opt) ≡ some opt
unfolding read_option
read_option_print opt p =
    ap option_from (word-symbol opt.name opt.value opt.operator p.name)
    ∙ option_from_lem opt.name opt.value opt.operator p.name p.trimmed_left p.one_line

no_bracket : (name t : String) → IsName name → read_section (cat name t) ≡ none
unfolding read_section after cat all_word
no_bracket String.[] t p = absurd (cc (p.1))
no_bracket (String.◌∷◌ c s) t p =
    rw
      (
        read_section,
        after,
        (not_sign (code c) (first_char (is_word_char (code c)) (all_word s) p.0)).1,
      )
      refl

pub read_section_line : (opt : Line) → IsPrintable opt → read_section (print_line opt) ≡ none
read_section_line opt p = no_bracket opt.name (cat (symbol opt.operator) opt.value) p.name

section_from_lem : (name : String) → IsName name → section_from (name, "]") ≡ some name
unfolding section_from after
section_from_lem name p = rw (section_from, p.1) refl

pub read_section_print :
    (name : String) → IsName name → read_section (print_section name) ≡ some name
unfolding read_section after cat
read_section_print name p =
    ap section_from (word-cat name "]" "" p.0 refl) ∙ section_from_lem name p
