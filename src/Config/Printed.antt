-- ===== src/Config/Printed.antt =====
-- A configuration file that is written out is read back.
pub mod Texts
use Prim.Native.Char.{Char, code}
use lnst.Prelude.{
  ℕ, ◌+◌, ◌≤◌, String, ◌≡◌, refl, ap, ◌∙◌, sym, Option, none, some, List, [], ◌∷◌, ◌++◌, map, Bool,
  true, false, ◌&&◌, arith, string_eq, ◌==◌, ==_self, append_nil, append_assoc, count-append,
  nat_beq, Bool-cases, inl, inr, All, count,
}
use lnst.Prelude.Dict.{Dict, get, has, put, keys, IsDistinct, get-eq-none_of_count}
use lnst.Prelude.Text.{is_empty, lstrip, rstrip, strip, is_space}
use lnst.Prelude.Exc.{Result, ok, ◌>>=◌}
use lnst.Config.Parser.{
  Operator, assign, add, Line, is_dropped, is_word_char, word, after, read_operator, read_option,
  option_from, section_from, read_section, preprocess_lines, Parsed, append_to, parse_line,
  parse_lines, parse_file,
}
use lnst.Config.Printed.Texts.{
  ended, print_line, print_section, IsName, IsPrintable, preprocess_line, preprocess_section,
  read_option_print, read_section_line, read_section_print,
}

-- The lines of a file, as readlines gives them.
unfoldable pub print : Dict String (List Line) → List String
print [] = []
print ((name, opts) ∷ sections) =
    ended (print_section name) ∷ map (λ o. ended (print_line o)) opts ++ print sections

-- The same, stripped
unfoldable stripped : Dict String (List Line) → List String
stripped [] = []
stripped ((name, opts) ∷ sections) = print_section name ∷ map print_line opts ++ stripped sections

keys-append : {V : Type 0} (d e : Dict String V) → keys (d ++ e) ≡ keys d ++ keys e
unfolding keys
keys-append [] e = refl
keys-append ((k, v) ∷ d) e = cc (keys-append d e)

module _ {V : Type 0} where
  put_last :
      (d : Dict String V) (k : String) (v w : V)
      → has d k ≡ false
      → put (d ++ ((k, v) ∷ [])) k w ≡ d ++ ((k, w) ∷ [])
  unfolding put has get
  put_last [] k v w h = rw (put, ==_self k) refl
  put_last ((j, x) ∷ d) k v w h = elim (Bool-cases (j == k)) [
    | inl here ↦ absurd (cc (rw (has, here) at h))
    | inr away ↦ rw away (cc (put_last d k v w (rw (has, away) at h)))
  ]

  put_new :
      (d : Dict String V) (k : String) (w : V) → has d k ≡ false → put d k w ≡ d ++ ((k, w) ∷ [])
  unfolding put has get
  put_new [] k w h = refl
  put_new ((j, x) ∷ d) k w h = elim (Bool-cases (j == k)) [
    | inl here ↦ absurd (cc (rw (has, here) at h))
    | inr away ↦ rw away (cc (put_new d k w (rw (has, away) at h)))
  ]

  get_last :
      (d : Dict String V) (k : String) (v : V)
      → has d k ≡ false
      → get (d ++ ((k, v) ∷ [])) k ≡ some v
  unfolding has get
  get_last [] k v h = rw (get, ==_self k) refl
  get_last ((j, x) ∷ d) k v h = elim (Bool-cases (j == k)) [
    | inl here ↦ absurd (cc (rw (has, here) at h))
    | inr away ↦ rw away (get_last d k v (rw (has, away) at h))
  ]

abbrev reading : Dict String (List Line) → String → List Line → Parsed
reading done name opts = record {
  sections = done ++ ((name, opts) ∷ []);
  current_section = some name;
}

append_to_last :
    (done : Dict String (List Line)) (name : String) (read : List Line) (opt : Line)
    → has done name ≡ false
    → append_to (done ++ ((name, read) ∷ [])) name opt ≡ done ++ ((name, read ++ (opt ∷ [])) ∷ [])
append_to_last done name read opt new =
    rw (append_to, get_last done name read new) (put_last done name read (read ++ (opt ∷ [])) new)

parse_option :
    (done : Dict String (List Line)) (name : String) (read : List Line) (opt : Line)
    → has done name ≡ false
    → IsPrintable opt
    → parse_line (reading done name read) (print_line opt)
      ≡ ok (reading done name (read ++ (opt ∷ [])))
unfolding parse_line
parse_option done name read opt new p =
    rw (parse_line, read_section_line opt p, read_option_print opt p)
      (ap
        (λ (s : Dict String (List Line)). ok (record { sections = s; current_section = some name }))
        (append_to_last done name read opt new))

parse_options :
    (done : Dict String (List Line)) (name : String) (read opts : List Line) (lines : List String)
    → has done name ≡ false
    → All IsPrintable opts
    → parse_lines (reading done name read) (map print_line opts ++ lines)
      ≡ parse_lines (reading done name (read ++ opts)) lines
unfolding parse_lines
parse_options done name read [] lines new p = rw (append_nil read) refl
parse_options done name read (opt ∷ opts) lines new p =
    let next = parse_options done name (read ++ (opt ∷ [])) opts lines new p.1 in
    ap (λ (r : Result Parsed). r >>= λ q. parse_lines q (map print_line opts ++ lines))
      (parse_option done name read opt new p.0)
    ∙ next
    ∙ ap (λ (os : List Line). parse_lines (reading done name os) lines)
        (append_assoc read (opt ∷ []) opts)

-- A file that can be written: the names of sections and options are words, values have no space at
-- their ends and are on one line.
abbrev pub ArePrintable : Dict String (List Line) → Type 0
ArePrintable [] = Unit
ArePrintable ((name, opts) ∷ sections) = IsName name × All IsPrintable opts × ArePrintable sections

preprocess_options :
    (opts : List Line) (lines : List String)
    → All IsPrintable opts
    → preprocess_lines (map (λ o. ended (print_line o)) opts ++ lines)
      ≡ map print_line opts ++ preprocess_lines lines
preprocess_options [] lines p = refl
preprocess_options (opt ∷ opts) lines p =
    preprocess_line opt (map (λ o. ended (print_line o)) opts ++ lines) p.0
    ∙ ap (λ l. print_line opt ∷ l) (preprocess_options opts lines p.1)

preprocess_print :
    (sections : Dict String (List Line))
    → ArePrintable sections
    → preprocess_lines (print sections) ≡ stripped sections
unfolding print stripped preprocess_lines
preprocess_print [] p = refl
preprocess_print ((name, opts) ∷ sections) p =
    preprocess_section name (map (λ o. ended (print_line o)) opts ++ print sections) p.0
    ∙ ap (λ l. print_section name ∷ l)
        (preprocess_options opts (print sections) p.1
          ∙ ap (λ l. map print_line opts ++ l) (preprocess_print sections p.2))

absent : {V : Type 0} (d : Dict String V) (k : String) → count k (keys d) ≡ 0 → has d k ≡ false
unfolding has
absent d k h = rw (has, get-eq-none_of_count d k h) refl

parse_print :
    (sections done : Dict String (List Line)) (current : Option String)
    → ArePrintable sections
    → ((k : String) → count k (keys done) + count k (keys sections) ≤ 1)
    → (p : Parsed) × (parse_lines
          (record { sections = done; current_section = current })
          (stripped sections)
        ≡ ok p)
      × (p.sections ≡ done ++ sections)
unfolding stripped parse_lines parse_line keys count
parse_print [] done current p d =
    (record { sections = done; current_section = current }, refl, sym (append_nil done))
parse_print ((name, opts) ∷ sections) done current p d =
    let new = absent done name (ground (arith, d name, ==_self name)) in
    let r = parse_print sections (done ++ ((name, opts) ∷ [])) (some name) p.2 (λ k.
      ground (
        arith,
        d k,
        count-append k (keys done) (name ∷ []),
        keys-append done ((name, opts) ∷ []),
      )) in
    (
      r.0,
      step new (read_section_print name p.0)
          ∙ parse_options done name [] opts (stripped sections) new p.1
          ∙ r.1,
      r.2 ∙ append_assoc done ((name, opts) ∷ []) sections,
    )
  where
    step :
        has done name ≡ false
        → read_section (print_section name) ≡ some name
        → parse_lines
            (record { sections = done; current_section = current })
            (print_section name ∷ map print_line opts ++ stripped sections)
          ≡ parse_lines (reading done name []) (map print_line opts ++ stripped sections)
    step new e = rw (parse_lines, parse_line, e, new, put_new done name [] new) refl

-- A configuration with distinct sections, whose names of sections and options are words and whose
-- values have no space at their ends and no newline, is read back from the lines that it is written
-- in, each with a newline at its end.
pub parse_file-print :
    (sections : Dict String (List Line))
    → ArePrintable sections
    → IsDistinct sections
    → parse_file (print sections) ≡ ok sections
unfolding parse_file keys count
parse_file-print sections p d =
    let r = parse_print sections [] none p (λ k. ground (arith, d k)) in
    rw (parse_file, preprocess_print sections p, r.1) (ap ok r.2)
