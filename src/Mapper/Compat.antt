-- ===== src/Mapper/Compat.antt =====
-- lnst/Controller/MachineMapper.py: the compatibility checks.
use lnst.Prelude.{
  String, Bool, true, false, not, ◌&&◌, none, some, [], ◌∷◌, if◌then◌else◌, string_eq, ◌==◌,
}
use lnst.Prelude.Exc.{Result, ok, key_error, ◌>>=◌, or_raise}
use lnst.Prelude.Dict.{Dict, get}
use lnst.Mapper.Defs.{Iface, Hosts, Labels}

-- `len(value) == 0`, or the parameter is there with that value
unfoldable pub param_fits : Dict String String → String → String → Bool
param_fits have param value =
    if value == "" then true else elim (get have param) [ none ↦ false | some w ↦ value == w ]

-- The loop over the required parameters, which the two checks share.
unfoldable pub params_fit : Dict String String → Dict String String → Bool
unfolding param_fits
params_fit [] have = true
params_fit ((param, value) ∷ req) have = param_fits have param value && params_fit req have

unfoldable pub check_machine_compatibility : Hosts → Hosts → String → String → Result Bool
unfolding params_fit
check_machine_compatibility mreqs pool req_id pool_id = do
  req_machine ← or_raise (get mreqs req_id) key_error
  pool_machine ← or_raise (get pool pool_id) key_error
  ok (params_fit req_machine.params pool_machine.params)

-- The loop over the network labels that are mapped already.
unfoldable pub labels_fit : Labels → String → String → Bool
labels_fit [] req_net pool_net = true
labels_fit ((req_label, mapping) ∷ labels) req_net pool_net =
    (if req_label == req_net
      then mapping.pool_label == pool_net
      else not (mapping.pool_label == pool_net))
    && labels_fit labels req_net pool_net

unfoldable pub check_interface_compatibility : Labels → Iface → Iface → Bool
unfolding params_fit labels_fit
check_interface_compatibility labels req_if pool_if =
    labels_fit labels req_if.network pool_if.network && params_fit req_if.params pool_if.params
