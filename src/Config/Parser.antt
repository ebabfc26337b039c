-- ===== src/Config/Parser.antt =====
-- lnst/Common/Config.py: `_preprocess_lines` and `_parse_file`, for files of ASCII. The regular
-- expressions match deterministically, and are written out.
use Prim.Native.Char.{code}
use lnst.Prelude.{
  ℕ, String, Option, none, some, List, [], ◌∷◌, ◌++◌, Bool, true, false, not, ◌&&◌, ◌||◌, nat_beq,
  leb, string_eq, if◌then◌else◌,
}
use lnst.Prelude.Dict.{Dict, get, has, put}
use lnst.Prelude.Text.{is_empty, lstrip, strip, is_space}
use lnst.Prelude.Exc.{Result, ok, err, guard, ◌>>=◌, ◌>>◌, config_error}

pub data Operator : Type 0 where
  assign add : Operator

-- `opt`: an option's line
pub record Line : Type 0 where
  pub name : String
  pub operator : Operator
  pub value : String

-- \w
abbrev pub is_word_char : ℕ → Bool
is_word_char c =
    leb 97 c && leb c 122 || (leb 65 c && leb c 90) || (leb 48 c && leb c 57) || nat_beq c 95

-- \w*, and what follows
unfoldable pub word : String → String × String
word String.[] = (String.[], String.[])
word (String.◌∷◌ c s) =
    let rest = word s in
    if is_word_char (code c) then (String.◌∷◌ c rest.0, rest.1) else (String.[], String.◌∷◌ c s)

-- The rest after one character
unfoldable pub after : ℕ → String → Option String
after c String.[] = none
after c (String.◌∷◌ d s) = if nat_beq (code d) c then some s else none

-- What `.` does not match
unfoldable pub has_newline : String → Bool
has_newline String.[] = false
has_newline (String.◌∷◌ c s) = nat_beq (code c) 10 || has_newline s

-- \s* and (.*)$, for a text that does not end in a newline
unfoldable pub with_value : String → Operator → String → Option Line
unfolding has_newline
with_value name op s =
    let value = lstrip is_space s in
    if has_newline value then none else some (record { name = name; operator = op; value = value })

-- \+?=
unfoldable pub read_operator : String → Option (Operator × String)
read_operator s = elim (after b'=' s) [
  | some value ↦ some (assign, value)
  | none ↦ elim (after b'+' s) [
    | some t ↦ elim (after b'=' t) [ some value ↦ some (add, value) | none ↦ none ]
    | none ↦ none
  ]
]

-- option_re, and section_re, after the word in them
unfoldable pub option_from : String × String → Option Line
option_from (name, s) = if is_empty name then none else elim (read_operator (lstrip is_space s)) [
  | none ↦ none
  | some (op, value) ↦ with_value name op value
]

unfoldable pub section_from : String × String → Option String
section_from (name, s) = elim (after b']' s) [
  | none ↦ none
  | some end ↦ if is_empty end && not (is_empty name) then some name else none
]

unfoldable pub read_option : String → Option Line
read_option s = option_from (word s)

unfoldable pub read_section : String → Option String
read_section s = elim (after b'[' s) [ none ↦ none | some t ↦ section_from (word t) ]

-- comment_re and empty_line_re
abbrev pub is_dropped : String → Bool
is_dropped line = elim (after b'#' line) [ some s ↦ true | none ↦ is_empty (lstrip is_space line) ]

unfoldable pub preprocess_lines : List String → List String
preprocess_lines [] = []
preprocess_lines (line ∷ lines) =
    let rest = preprocess_lines lines in if is_dropped line then rest else strip line ∷ rest

-- `result` and `current_section`
pub record Parsed : Type 0 where
  pub sections : Dict String (List Line)
  pub current_section : Option String

-- result[current_section].append(opt)
abbrev pub append_to : Dict String (List Line) → String → Line → Dict String (List Line)
append_to sections name opt = elim (get sections name) [
  | none ↦ sections
  | some opts ↦ put sections name (opts ++ (opt ∷ []))
]

unfoldable pub parse_line : Parsed → String → Result Parsed
parse_line p line = elim (read_section line) [
  | some name ↦
      guard (not (has p.sections name)) config_error
      >> ok (record { sections = put p.sections name []; current_section = some name })
  | none ↦ elim (read_option line) [
    | none ↦ err config_error
    | some opt ↦ elim p.current_section [
      | none ↦ err config_error
      | some name ↦ ok (record p { sections = append_to p.sections name opt })
    ]
  ]
]

unfoldable pub parse_lines : Parsed → List String → Result Parsed
parse_lines p [] = ok p
parse_lines p (line ∷ lines) = parse_line p line >>= λ q. parse_lines q lines

-- `_parse_file`, of the lines of the file
unfoldable pub parse_file : List String → Result (Dict String (List Line))
parse_file lines =
    parse_lines (record { sections = []; current_section = none }) (preprocess_lines lines) >>= λ p.
    ok p.sections
