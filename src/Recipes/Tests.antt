-- ===== src/Recipes/Tests.antt =====
-- Recipes at concrete inputs.
use lnst.Prelude.{
  String, ◌≡◌, refl, none, some, [], ◌∷◌, true, false, ◌==◌, string_eq, arith, count, Bool-cases,
  inl, inr, subst,
}
use lnst.Prelude.Dict.{Dict, get, put, del, keys, IsDistinct, put-IsDistinct}
use lnst.Prelude.Exc.{ok, err, recipe_error}
use lnst.Mapper.Defs.{Hosts}
use lnst.Recipes.{
  Param, plain, linked, DeviceReq, HostReq, Recipe, choice_check, reinit_one, reinit_over,
  reinit_with_params, reinit_devices, reinit_host, reinit_hosts, param_value, init_params,
  init_recipe, params_to_dict, device_to_dict, devices_to_dict, host_to_dict, to_dict,
}
use lnst.Recipes.Mapped.{SameInterfaces, init_recipe-to_dict}
use lnst.Recipes.Built.{IsReq, IsBuilt, init_recipe-IsBuilt}

-- A parameter with a default and two choices; and one that must be given
abbrev attrs : Dict String (Param String)
attrs =
    (
      "driver",
      record {
        mandatory = false;
        default = some "ice";
        type_check = choice_check none ("ice" ∷ "mlx5_core" ∷ []);
      },
    )
    ∷ ("net", record { mandatory = true; default = none; type_check = λ v. ok v })
    ∷ []

abbrev eth0 : DeviceReq String
eth0 = record {
  label = "net1";
  params = ("driver", linked (record { name = "driver"; mandatory = true; default = none })) ∷ [];
}

abbrev host1 : HostReq String
host1 = record { params = []; devices = ("eth0", eth0) ∷ [] }

abbrev reqs : Dict String (HostReq String)
reqs = ("host1", host1) ∷ []

abbrev kwargs : Dict String String
kwargs = ("net", "10.0.0.0/8") ∷ []

abbrev built : Recipe String
built = record {
  params = ("driver", "ice") ∷ ("net", "10.0.0.0/8") ∷ [];
  req =
      (
        "host1",
        record {
          params = [];
          devices = ("eth0", record { label = "net1"; params = ("driver", plain "ice") ∷ [] }) ∷ [];
        },
      )
      ∷ [];
}

-- An unknown parameter
unknown : init_recipe [] [] kwargs ≡ err recipe_error
unfolding init_recipe init_params reinit_hosts reinit_host reinit_devices reinit_with_params
    reinit_over reinit_one get del
unknown = refl

-- What the mapper is given
mapped :
    to_dict built.req
    ≡ some (
        (
          "host1",
          record {
            interfaces =
                ("eth0", record { network = "net1"; params = ("driver", "ice") ∷ [] }) ∷ [];
            params = [];
          },
        )
        ∷ [])
unfolding to_dict host_to_dict devices_to_dict device_to_dict params_to_dict
mapped = refl

empty-IsDistinct : (V : Type 0) → IsDistinct {K = String} {V = V} []
unfolding keys count
empty-IsDistinct V k = omega arith

attrs-IsDistinct : IsDistinct attrs
unfolding put
attrs-IsDistinct =
    put-IsDistinct
      ((
        "driver",
        record {
          mandatory = false;
          default = some "ice";
          type_check = choice_check none ("ice" ∷ "mlx5_core" ∷ []);
        },
      )
        ∷ [])
      "net" (record { mandatory = true; default = none; type_check = λ v. ok v })
      (put-IsDistinct [] "driver" _ (empty-IsDistinct _))

single-IsDistinct :
    {V : Type 0} (k : String) (v : V) → IsDistinct {K = String} {V = V} ((k, v) ∷ [])
unfolding put
single-IsDistinct k v = put-IsDistinct [] k v (empty-IsDistinct _)

single_get :
    {V : Type 0} (j k : String) (v w : V) → get {K = String} ((j, v) ∷ []) k ≡ some w → v ≡ w
unfolding get
single_get j k v w h = elim (Bool-cases (j == k)) [
  | inl here ↦ cc (rw (get, here) at h)
  | inr away ↦ absurd (cc (rw (get, away) at h))
]

host1-IsReq : IsReq host1
host1-IsReq = record {
  params = empty-IsDistinct _;
  devices = λ k dev there.
      subst (λ (d : DeviceReq String). IsDistinct d.params) (single_get "eth0" k eth0 dev there)
        (single-IsDistinct "driver" _);
}

reqs-IsReq : (k : String) (host : HostReq String) → get reqs k ≡ some host → IsReq host
reqs-IsReq k host there =
    subst (λ (h : HostReq String). IsReq h) (single_get "host1" k host1 host there) host1-IsReq

init_recipe-IsBuilt_example : IsBuilt attrs reqs kwargs built
unfolding init_recipe init_params param_value reinit_hosts reinit_host reinit_devices
    reinit_with_params reinit_over reinit_one get del put
init_recipe-IsBuilt_example =
    init_recipe-IsBuilt attrs reqs kwargs built attrs-IsDistinct
      (single-IsDistinct "net" "10.0.0.0/8") reqs-IsReq refl

init_recipe-to_dict_example :
    (hosts : Hosts) × (to_dict built.req ≡ some hosts) × SameInterfaces hosts reqs
unfolding init_recipe init_params param_value reinit_hosts reinit_host reinit_devices
    reinit_with_params reinit_over reinit_one get del put
init_recipe-to_dict_example =
    init_recipe-to_dict attrs reqs kwargs built
      ((empty-IsDistinct _, (single-IsDistinct "driver" _, tt)), tt) refl
