-- ===== src/Config.antt =====
-- lnst/Common/Config.py: the options in their sections. The values are any type, with the `+` on
-- them; an option holds its action, as it does in the program. What raises is not looked at again.
pub mod Parser
pub mod Printed
pub mod Named
pub mod Handled
pub mod Tests
use lnst.Prelude.{
  String, Option, none, some, List, [], ◌∷◌, Bool, true, false, ◌==◌, string_eq, if◌then◌else◌,
}
use lnst.Prelude.Dict.{Dict, get, has, put}
use lnst.Prelude.Text.{is_empty}
use lnst.Prelude.Exc.{Result, ok, err, guard, or_raise, ◌>>=◌, ◌>>◌, config_error, key_error}
use lnst.Config.Parser.{Operator, assign, add, Line, parse_file}

-- `action` is given the text and the path of the configuration's file.
pub record Opt (V : Type 0) : Type 0 where
  pub value : V
  pub additive : Bool
  pub action : String → String → Result V
  pub name : String

abbrev pub Section : Type 0 → Type 0
Section V = Dict String (Opt V)

abbrev pub Options : Type 0 → Type 0
Options V = Dict String (Section V)

abbrev pub is_assign : Operator → Bool
is_assign assign = true
is_assign add = false

module _ {V : Type 0} where
  unfoldable pub get_section : Options V → String → Result (Section V)
  get_section options section = or_raise (get options section) config_error

  unfoldable pub values_of : Section V → Dict String V
  values_of [] = []
  values_of ((k, o) ∷ opts) = (k, o.value) ∷ values_of opts

  unfoldable pub get_section_values : Options V → String → Result (Dict String V)
  get_section_values options section = get_section options section >>= λ s. ok (values_of s)

  unfoldable pub get_option : Options V → String → String → Result V
  get_option options section option =
      get_section options section >>= λ s. or_raise (get s option) config_error >>= λ o. ok o.value

  unfoldable pub set_option : Options V → String → String → V → Result (Options V)
  set_option options section option v = get_section options section >>= λ s.
      or_raise (get s option) key_error >>= λ o.
      ok (put options section (put s option (record o { value = v })))

  -- The option that `_find_option_by_name` finds, with its key.
  unfoldable pub find_option_by_name : Section V → String → Option (String × Opt V)
  find_option_by_name [] opt_name = none
  find_option_by_name ((k, o) ∷ section) opt_name =
      let rest = find_option_by_name section opt_name in
      if o.name == opt_name then some (k, o) else rest

  -- `option["value"] = ...` or `+=`, by the operator
  unfoldable pub new_value : (V → V → Result V) → String → Opt V → Line → Result V
  new_value plus cfg_path o opt = elim opt.operator [
    | assign ↦ o.action opt.value cfg_path
    | add ↦
        if o.additive
        then (o.action opt.value cfg_path >>= λ v. plus o.value v)
        else err config_error
  ]

  -- One line of handleOptions; a line without a value is passed over.
  unfoldable pub handle_option : (V → V → Result V) → String → Section V → Line → Result (Section V)
  handle_option plus cfg_path section opt =
      if is_empty opt.value then ok section else elim (find_option_by_name section opt.name) [
        | none ↦ err config_error
        | some (k, o) ↦
            new_value plus cfg_path o opt >>= λ v. ok (put section k (record o { value = v }))
      ]

  unfoldable pub handle_options :
      (V → V → Result V) → String → Section V → List Line → Result (Section V)
  handle_options plus cfg_path section [] = ok section
  handle_options plus cfg_path section (opt ∷ config) =
      handle_option plus cfg_path section opt >>= λ s. handle_options plus cfg_path s config

  -- `option_path` is self.optionPath, which the pool's option holds too.
  unfoldable pub add_pool : (String → String → V) → Section V → String → String → String → Section V
  add_pool option_path pools pool_name pool_dir cfg_path = put pools pool_name (record {
    value = option_path pool_dir cfg_path;
    additive = false;
    action = λ o path. ok (option_path o path);
    name = pool_name;
  })

  unfoldable pub handle_pools :
      (String → String → V) → String → Section V → List Line → Result (Section V)
  handle_pools option_path cfg_path pools [] = ok pools
  handle_pools option_path cfg_path pools (pool ∷ config) =
      guard (is_assign pool.operator) config_error
      >> handle_pools option_path cfg_path
          (add_pool option_path pools pool.name pool.value cfg_path) config

  unfoldable pub handle_section :
      (V → V → Result V)
      → (String → String → V)
      → String
      → Options V
      → String
      → List Line
      → Result (Options V)
  handle_section plus option_path cfg_path options name config =
      or_raise (get options name) config_error >>= λ s.
      (if name == "pools"
        then handle_pools option_path cfg_path s config
        else handle_options plus cfg_path s config)
      >>= λ t. ok (put options name t)

  unfoldable pub handle_sections :
      (V → V → Result V)
      → (String → String → V)
      → String
      → Options V
      → Dict String (List Line)
      → Result (Options V)
  handle_sections plus option_path cfg_path options [] = ok options
  handle_sections plus option_path cfg_path options ((name, config) ∷ sections) =
      handle_section plus option_path cfg_path options name config >>= λ o.
      handle_sections plus option_path cfg_path o sections

  -- load_config, of the lines of the file
  unfoldable pub load_config :
      (V → V → Result V)
      → (String → String → V)
      → String
      → Options V
      → List String
      → Result (Options V)
  load_config plus option_path abs_path options lines =
      parse_file lines >>= λ sections. handle_sections plus option_path abs_path options sections

  unfoldable pub get_pools : Options V → Result (Dict String V)
  get_pools options = or_raise (get options "pools") key_error >>= λ pools. ok (values_of pools)

  abbrev pub get_pool : Options V → String → Option (Opt V)
  get_pool options pool_name = elim (get options "pools") [
    | none ↦ none
    | some pools ↦ get pools pool_name
  ]
