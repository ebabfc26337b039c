-- ===== src/Containers.antt =====
-- ContainerMapper of lnst/Controller/MachineMapper.py: the one match of containers for requirements.
-- The pool manager is not part of it: the pool that it made, the networks it has and its names of
-- networks are arguments.
pub mod Served
pub mod Tests
use lnst.Prelude.{
  String, Bool, false, Option, none, some, List, [], ◌∷◌, ◌==◌, string_eq, if◌then◌else◌,
}
use lnst.Prelude.Dict.{Dict, get}
use lnst.Prelude.Exc.{Result, ok, key_error, type_error, or_raise, ◌>>=◌}
use lnst.Mapper.Defs.{Iface, Host, Hosts}
use lnst.Mapper.Mapping.{IfMap, MachineMap, Mapping}

-- The first interface on the network; Python's None otherwise.
unfoldable pub map_machine_interface : String → Dict String Iface → Option (String × Iface)
map_machine_interface network_name [] = none
map_machine_interface network_name ((inf_id, interface) ∷ interfaces) =
    if interface.network == network_name
    then some (inf_id, interface)
    else map_machine_interface network_name interfaces

-- The loop over the interfaces that are asked for: None does not unpack, a TypeError.
unfoldable pub map_container_ifs :
    (String → String) → Dict String Iface → Dict String Iface → Result (Dict String IfMap)
map_container_ifs get_network_name interfaces [] = ok []
map_container_ifs get_network_name interfaces ((inf_id, infs) ∷ reqs) =
    or_raise (map_machine_interface (get_network_name infs.network) interfaces) type_error
    >>= λ found. or_raise (get found.1.params "hwaddr") key_error >>= λ hwaddr.
        map_container_ifs get_network_name interfaces reqs >>= λ rest.
        ok ((inf_id, record { target = found.0; hwaddr = hwaddr }) ∷ rest)

-- The loop over the machines that are asked for.
unfoldable pub map_containers : (String → String) → Hosts → Hosts → Result (Dict String MachineMap)
map_containers get_network_name pool [] = ok []
map_containers get_network_name pool ((m_id, reqs) ∷ mreqs) =
    or_raise (get pool m_id) key_error >>= λ container.
    or_raise (get container.params "hostname") key_error >>= λ hostname.
    map_container_ifs get_network_name container.interfaces reqs.interfaces >>= λ ifs.
    map_containers get_network_name pool mreqs >>= λ rest.
    ok ((m_id, record { target = m_id; hostname = hostname; interfaces = ifs }) ∷ rest)

same_names : List String → Dict String String
same_names [] = []
same_names (name ∷ names) = (name, name) ∷ same_names names

-- ContainerMapper.matches: the match that it yields
unfoldable pub container_matches : (String → String) → List String → Hosts → Hosts → Result Mapping
unfolding same_names
container_matches get_network_name networks pool mreqs =
    map_containers get_network_name pool mreqs >>= λ machines. ok (record {
      machines = machines;
      networks = same_names networks;
      virtual = false;
      pool_name = some "default";
    })
