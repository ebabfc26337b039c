-- ===== src/Recipes.antt =====
-- The parameters and the requirements of a recipe: lnst/Common/Parameters.py,
-- lnst/Controller/Requirements.py and BaseRecipe.__init__ of lnst/Controller/Recipe.py. The values
-- of parameters are any type; attributes are dictionaries, in the order of `dir`.
pub mod Built
pub mod Resolved
pub mod Mapped
pub mod Tests
use lnst.Prelude.{
  String, Option, none, some, List, [], ◌∷◌, Bool, true, false, not, Eq, ◌==◌, string_eq, elem,
  if◌then◌else◌,
}
use lnst.Prelude.Dict.{Dict, get, has, put, del}
use lnst.Prelude.Exc.{
  Result, ok, err, guard, or_raise, ◌>>=◌, ◌>>◌, param_error, recipe_error, requirement_error,
}
use lnst.Mapper.Defs.{Iface, Host, Hosts}

-- A Param: `default` need not be set; the class gives the type check.
pub record Param (U : Type 0) : Type 0 where
  pub mandatory : Bool
  pub default : Option U
  pub type_check : U → Result U

-- RecipeParam: its type check is Param's, which takes any value.
pub record RecipeParam (U : Type 0) : Type 0 where
  pub name : String
  pub mandatory : Bool
  pub default : Option U

-- A value in the parameters of a requirement.
pub data Setting (U : Type 0) : Type 0 where
  plain : U → Setting U
  linked : RecipeParam U → Setting U

pub record DeviceReq (U : Type 0) : Type 0 where
  pub label : String
  pub params : Dict String (Setting U)

pub record HostReq (U : Type 0) : Type 0 where
  pub params : Dict String (Setting U)
  pub devices : Dict String (DeviceReq U)

pub record Recipe (U : Type 0) : Type 0 where
  pub params : Dict String U
  pub req : Dict String (HostReq U)

module _ {U : Type 0} where
  -- Param.__init__, for the type check of a class
  unfoldable pub new_param : Bool → Option U → (U → Result U) → Result (Param U)
  new_param mandatory none check =
      ok (record { mandatory = mandatory; default = none; type_check = check })
  new_param mandatory (some d) check =
      check d >>= λ v. ok (record { mandatory = mandatory; default = some v; type_check = check })

  -- ListParam.type_check: `as_list` tells whether a value is a list, `of_list` is the list as a value.
  unfoldable pub check_items : (U → Result U) → List U → Result (List U)
  check_items check [] = ok []
  check_items check (item ∷ items) =
      check item >>= λ v. check_items check items >>= λ vs. ok (v ∷ vs)

  unfoldable pub list_check :
      (U → Option (List U)) → (List U → U) → Option (U → Result U) → U → Result U
  list_check as_list of_list type value = or_raise (as_list value) param_error >>= λ items.
      elim type [ none ↦ ok value | some check ↦ check_items check items >>= λ vs. ok (of_list vs) ]

  -- Parameters.get
  unfoldable pub get_or : Dict String U → String → U → U
  get_or params name default = elim (get params name) [ some v ↦ v | none ↦ default ]

  -- BaseReq.__init__
  unfoldable pub new_req : Dict String (Setting U) → Result (Dict String (Setting U))
  new_req kwargs = if has kwargs "params" then err requirement_error else ok kwargs

  -- One name of reinit_with_params
  unfoldable pub reinit_one :
      Dict String U
      → Dict String (Setting U)
      → String
      → Setting U
      → Result (Dict String (Setting U))
  reinit_one recipe_params params name (plain v) = ok params
  reinit_one recipe_params params name (linked val) = elim (get recipe_params val.name) [
    | some new_val ↦ ok (put params name (plain new_val))
    | none ↦ elim val.default [
      | some new_val ↦ ok (put params name (plain new_val))
      | none ↦ if val.mandatory then err requirement_error else ok (del params name)
    ]
  ]

  -- The loop over a copy of the items
  unfoldable pub reinit_over :
      Dict String U
      → Dict String (Setting U)
      → Dict String (Setting U)
      → Result (Dict String (Setting U))
  reinit_over recipe_params params [] = ok params
  reinit_over recipe_params params ((name, val) ∷ items) =
      reinit_one recipe_params params name val >>= λ p. reinit_over recipe_params p items

  -- BaseReq.reinit_with_params
  unfoldable pub reinit_with_params :
      Dict String U → Dict String (Setting U) → Result (Dict String (Setting U))
  reinit_with_params recipe_params params = reinit_over recipe_params params params

  unfoldable pub reinit_devices :
      Dict String U → Dict String (DeviceReq U) → Result (Dict String (DeviceReq U))
  reinit_devices recipe_params [] = ok []
  reinit_devices recipe_params ((name, dev_req) ∷ devices) =
      reinit_with_params recipe_params dev_req.params >>= λ p.
      reinit_devices recipe_params devices >>= λ rest.
      ok ((name, record dev_req { params = p }) ∷ rest)

  -- HostReq.reinit_with_params
  unfoldable pub reinit_host : Dict String U → HostReq U → Result (HostReq U)
  reinit_host recipe_params host = reinit_with_params recipe_params host.params >>= λ p.
      reinit_devices recipe_params host.devices >>= λ ds. ok (record { params = p; devices = ds })

  unfoldable pub reinit_hosts :
      Dict String U → Dict String (HostReq U) → Result (Dict String (HostReq U))
  reinit_hosts recipe_params [] = ok []
  reinit_hosts recipe_params ((name, host) ∷ hosts) = reinit_host recipe_params host >>= λ h.
      reinit_hosts recipe_params hosts >>= λ rest. ok ((name, h) ∷ rest)

  -- The value of one parameter of a recipe, from what is given for it; it may stay without one.
  unfoldable pub param_value : Param U → Option U → Result (Option U)
  param_value val (some given) = val.type_check given >>= λ v. ok (some v)
  param_value val none = elim val.default [
    | some d ↦ ok (some d)
    | none ↦ if val.mandatory then err recipe_error else ok none
  ]

  abbrev pub set_param : Dict String U → String → Option U → Dict String U
  set_param params name none = params
  set_param params name (some v) = put params name v

  -- The loop over the parameters; it gives what is left of `kwargs` too.
  unfoldable pub init_params :
      Dict String (Param U) → Dict String U → Dict String U → Result (Dict String U × Dict String U)
  init_params [] kwargs params = ok (params, kwargs)
  init_params ((name, val) ∷ attrs) kwargs params = param_value val (get kwargs name) >>= λ v.
      init_params attrs (del kwargs name) (set_param params name v)

  -- BaseRecipe.__init__, for a class with these parameters and requirements
  unfoldable pub init_recipe :
      Dict String (Param U) → Dict String (HostReq U) → Dict String U → Result (Recipe U)
  init_recipe attrs reqs kwargs = init_params attrs kwargs [] >>= λ r.
      reinit_hosts r.0 reqs >>= λ hosts. elim (r.1) [
        | [] ↦ ok (record { params = r.0; req = hosts })
        | kv ∷ more ↦ err recipe_error
      ]

module _ {U : Type 0} ⦃eq_u : Eq U⦄ where
  -- ConstParam.type_check: in the constructor there is no default yet.
  unfoldable pub const_check : Option U → U → Result U
  const_check none value = ok value
  const_check (some default) value = guard (value == default) param_error >> ok value

  -- ChoiceParam.type_check
  unfoldable pub choice_check : Option (U → Result U) → List U → U → Result U
  choice_check none choices value = guard (elem value choices) param_error >> ok value
  choice_check (some check) choices value =
      check value >>= λ v. guard (elem v choices) param_error >> ok v

-- `_to_dict`, where the values are texts as the mapper compares them: none if a parameter of the
-- recipe stands for one still.
unfoldable pub params_to_dict : Dict String (Setting String) → Option (Dict String String)
params_to_dict [] = some []
params_to_dict ((name, plain v) ∷ params) = elim (params_to_dict params) [
  | none ↦ none
  | some d ↦ some ((name, v) ∷ d)
]
params_to_dict ((name, linked val) ∷ params) = none

unfoldable pub device_to_dict : DeviceReq String → Option Iface
device_to_dict dev = elim (params_to_dict dev.params) [
  | none ↦ none
  | some d ↦ some (record { network = dev.label; params = d })
]

unfoldable pub devices_to_dict : Dict String (DeviceReq String) → Option (Dict String Iface)
devices_to_dict [] = some []
devices_to_dict ((dev_id, dev) ∷ devices) = elim (device_to_dict dev) [
  | none ↦ none
  | some d ↦ elim (devices_to_dict devices) [ none ↦ none | some ds ↦ some ((dev_id, d) ∷ ds) ]
]

unfoldable pub host_to_dict : HostReq String → Option Host
host_to_dict host = elim (params_to_dict host.params) [
  | none ↦ none
  | some ps ↦ elim (devices_to_dict host.devices) [
    | none ↦ none
    | some ds ↦ some (record { interfaces = ds; params = ps })
  ]
]

-- _Requirements._to_dict
unfoldable pub to_dict : Dict String (HostReq String) → Option Hosts
to_dict [] = some []
to_dict ((h_id, host) ∷ req) = elim (host_to_dict host) [
  | none ↦ none
  | some h ↦ elim (to_dict req) [ none ↦ none | some hs ↦ some ((h_id, h) ∷ hs) ]
]
