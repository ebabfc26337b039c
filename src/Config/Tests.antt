-- ===== src/Config/Tests.antt =====
-- A configuration at concrete inputs.
use lnst.Prelude.{
  ℕ, String, ◌≡◌, refl, none, List, [], ◌∷◌, Bool, true, false, string_eq, arith, count,
}
use lnst.Prelude.Dict.{Dict, get, has, put, keys, IsDistinct, put-IsDistinct}
use lnst.Prelude.Text.{lstrip, rstrip, strip}
use lnst.Prelude.Exc.{ok, err, config_error}
use lnst.Config.Parser.{
  assign, add, Line, word, after, read_operator, option_from, section_from, read_option,
  read_section, preprocess_lines, parse_line, parse_lines, parse_file, has_newline, with_value,
}
use lnst.Config.Printed.{print, ArePrintable, parse_file-print}
use lnst.Config.Printed.Texts.{all_word}
use lnst.Config.{Opt, Section, find_option_by_name, new_value, handle_option, handle_options}
use lnst.Config.Named.{names_of, AreNamed}
use lnst.Config.Handled.{IsHandled, handle_options-IsHandled}

-- rpcport = 9999, in the section environment, which has a comment
parses :
    parse_file ("# a comment\n" ∷ "[environment]\n" ∷ "  \n" ∷ "rpcport  =  9999 \n" ∷ [])
    ≡ ok (("environment", record { name = "rpcport"; operator = assign; value = "9999" } ∷ []) ∷ [])
unfolding parse_file parse_lines parse_line preprocess_lines read_section read_option option_from
    section_from read_operator with_value after word strip lstrip rstrip has get put
parses = refl

-- A value on two lines is none.
two_lines : read_option "a=b\nc" ≡ none
unfolding read_option option_from read_operator with_value has_newline after word lstrip
two_lines = refl

-- A comment that is indented is no comment.
indented_comment : parse_file (" # a comment\n" ∷ []) ≡ err config_error
unfolding parse_file parse_lines parse_line preprocess_lines read_section read_option option_from
    section_from read_operator with_value after word strip lstrip rstrip has get put
indented_comment = refl

abbrev config : List Line
config =
    record { name = "rpcport"; operator = assign; value = "1" }
    ∷ record { name = "tool_dirs"; operator = add; value = "a b" }
    ∷ []

abbrev sections : Dict String (List Line)
sections = ("environment", config) ∷ ("pools", []) ∷ []

sections-ArePrintable : ArePrintable sections
unfolding all_word lstrip rstrip has_newline
sections-ArePrintable = (
  (refl, refl),
  (
    record { name = (refl, refl); trimmed_left = refl; trimmed_right = refl; one_line = refl },
    (
      record { name = (refl, refl); trimmed_left = refl; trimmed_right = refl; one_line = refl },
      tt,
    ),
  ),
  ((refl, refl), tt, tt),
)

empty-IsDistinct : (V : Type 0) → IsDistinct {K = String} {V = V} []
unfolding keys count
empty-IsDistinct V k = omega arith

sections-IsDistinct : IsDistinct sections
unfolding put
sections-IsDistinct =
    put-IsDistinct (("environment", config) ∷ []) "pools" []
      (put-IsDistinct [] "environment" config (empty-IsDistinct _))

parse_file-print_example : parse_file (print sections) ≡ ok sections
parse_file-print_example = parse_file-print sections sections-ArePrintable sections-IsDistinct

-- Values are numbers: every text is read as 7.
abbrev option_of : String → Bool → Opt ℕ
option_of name additive = record {
  value = 0;
  additive = additive;
  action = λ text path. ok 7;
  name = name;
}

abbrev environment : Section ℕ
environment =
    ("rpcport", option_of "rpcport" false)
    ∷ ("tool_dirs", option_of "tool_dirs" true)
    ∷ ("log_dir", option_of "log_dir" false)
    ∷ []

environment-IsDistinct : IsDistinct environment
unfolding put
environment-IsDistinct =
    put-IsDistinct
      (("rpcport", option_of "rpcport" false) ∷ ("tool_dirs", option_of "tool_dirs" true) ∷ [])
      "log_dir" (option_of "log_dir" false)
      (put-IsDistinct (("rpcport", option_of "rpcport" false) ∷ []) "tool_dirs"
        (option_of "tool_dirs" true)
        (put-IsDistinct [] "rpcport" (option_of "rpcport" false) (empty-IsDistinct _)))

environment-AreNamed : AreNamed environment
unfolding names_of keys
environment-AreNamed name = environment-IsDistinct name

handle_options-IsHandled_example :
    IsHandled
      (λ a b. ok 8)
      "/etc/lnst.conf"
      environment
      (("rpcport", record (option_of "rpcport" false) { value = 7 })
        ∷ ("tool_dirs", record (option_of "tool_dirs" true) { value = 8 })
        ∷ ("log_dir", option_of "log_dir" false)
        ∷ [])
      config
unfolding handle_options handle_option new_value find_option_by_name put
handle_options-IsHandled_example =
    handle_options-IsHandled (λ a b. ok 8) "/etc/lnst.conf" config environment _
      environment-IsDistinct environment-AreNamed refl
