-- ===== src/Pools.antt =====
-- lnst/Controller/AgentPoolManager.py: the machines of the pools, from what lxml reads out of their
-- files, with lnst/Controller/AgentMachineParser.py. What the directories hold, and what answers a
-- connection to a machine, are arguments.
pub mod Parser
pub mod Loaded
pub mod Tests
use lnst.Prelude.{
  String, Option, none, some, List, [], ◌∷◌, Bool, true, false, not, ◌||◌, ◌&&◌, ◌==◌, string_eq,
  nat_beq, if◌then◌else◌,
}
use lnst.Prelude.Dict.{Dict, get, has, put, del}
use lnst.Prelude.Text.{upper, rstrip}
use lnst.Prelude.Exc.{
  Result, ok, err, guard, or_raise, ◌>>=◌, ◌>>◌, key_error, value_error, pool_manager_error,
}
use lnst.Mapper.Defs.{Iface, Host}

-- A `{"name": ..., "value": ...}`
pub record ParamXml : Type 0 where
  pub name : String
  pub value : String

-- The parser leaves out "params" where there are none.
pub record IfaceXml : Type 0 where
  pub id : String
  pub network : String
  pub params : Option (List ParamXml)

-- "auth_type" and, but where there is no security tag, "auth_passwd" and "pubkey_path"
pub record Security : Type 0 where
  pub auth_type : String
  pub keys : Option (String × String)

pub record MachineXml : Type 0 where
  pub params : Option (List ParamXml)
  pub interfaces : Option (List IfaceXml)
  pub security : Security

-- The dictionary of a machine in a pool; what the mapper reads of it is the host.
pub record Spec : Type 0 where
  pub host : Host
  pub security : Security
  pub available : Option Bool

unfoldable pub normalize_hwaddr : String → String
normalize_hwaddr hwaddr = rstrip (λ c. nat_beq c 10) (upper hwaddr)

unfoldable pub add_params : Dict String String → List ParamXml → Dict String String
add_params d [] = d
add_params d (p ∷ ps) = add_params (put d p.name p.value) ps

unfoldable pub add_iface_params : Dict String String → List ParamXml → Dict String String
add_iface_params d [] = d
add_iface_params d (p ∷ ps) =
    add_iface_params
      (put d p.name (if p.name == "hwaddr" then normalize_hwaddr p.value else p.value)) ps

unfoldable pub process_iface_xml_data : IfaceXml → Result Iface
process_iface_xml_data iface = or_raise iface.params key_error >>= λ ps.
    guard (has (add_iface_params [] ps) "hwaddr") pool_manager_error
    >> ok (record { network = iface.network; params = add_iface_params [] ps })

-- Whether an interface has the MAC address.
unfoldable pub hwaddr_dup : String → Dict String Iface → Result Bool
hwaddr_dup if_hwaddr [] = ok false
hwaddr_dup if_hwaddr ((k, v) ∷ ifs) = or_raise (get v.params "hwaddr") key_error >>= λ a.
    hwaddr_dup if_hwaddr ifs >>= λ b. ok (a == if_hwaddr || b)

unfoldable pub add_interface : Dict String Iface → IfaceXml → Result (Dict String Iface)
add_interface ifs iface = process_iface_xml_data iface >>= λ spec.
    guard (not (has ifs iface.id)) pool_manager_error
    >> or_raise (get spec.params "hwaddr") key_error
    >>= λ if_hwaddr. hwaddr_dup if_hwaddr ifs >>= λ dup.
        guard (not dup) pool_manager_error >> ok (put ifs iface.id spec)

unfoldable pub add_interfaces : Dict String Iface → List IfaceXml → Result (Dict String Iface)
add_interfaces ifs [] = ok ifs
add_interfaces ifs (iface ∷ more) = add_interface ifs iface >>= λ next. add_interfaces next more

-- "hostname" is mandatory; the error reads the parameters of the file.
unfoldable pub require_hostname : Dict String String → MachineXml → Result (Unit {0})
require_hostname params xml =
    if has params "hostname"
    then ok tt
    else or_raise xml.params key_error >>= λ ps. err pool_manager_error

abbrev pub or_empty : {A : Type 0} → Option (List A) → List A
or_empty none = []
or_empty (some xs) = xs

unfoldable pub process_machine_xml_data : MachineXml → Result Spec
process_machine_xml_data xml =
    let params = add_params [] (or_empty xml.params) in
    require_hostname params xml >> add_interfaces [] (or_empty xml.interfaces) >>= λ ifs.
    ok (record {
      host = record { interfaces = ifs; params = params };
      security = xml.security;
      available = none;
    })

abbrev pub Pool : Type 0
Pool = Dict String Spec

-- `"libvirt_domain" in rm and "libvirt_domain" in pm` and the two are equal
abbrev pub same_domain : Option String → Option String → Bool
same_domain none pm = false
same_domain (some r) none = false
same_domain (some r) (some p) = p == r

-- The loop of add_file over the machines of the pool.
unfoldable pub check_listed : Dict String String → Pool → Result (Unit {0})
check_listed rm [] = ok tt
check_listed rm ((pm_id, m) ∷ pool) = or_raise (get m.host.params "hostname") key_error >>= λ p.
    or_raise (get rm "hostname") key_error >>= λ r.
    guard (not (p == r)) pool_manager_error
    >> guard (not (same_domain (get rm "libvirt_domain") (get m.host.params "libvirt_domain")))
        pool_manager_error
    >> check_listed rm pool

abbrev pub without_domain : Spec → Spec
without_domain m = record m {
  host = record { interfaces = m.host.interfaces; params = del m.host.params "libvirt_domain" };
}

-- add_file, of a file that names a machine, from what the parser gives
unfoldable pub add_file : Bool → Pool → Result MachineXml → Result Spec
add_file allow_virt pool parsed = parsed >>= λ xml. process_machine_xml_data xml >>= λ m.
    (let spec =
        if has m.host.params "libvirt_domain" && not allow_virt then without_domain m else m in
      check_listed spec.host.params pool >> ok spec)

-- An entry of a directory: a file that is named *.xml, with its name before that, or another.
pub data Dirent : Type 0 where
  machine_file : String → Result MachineXml → Dirent
  other : Dirent

unfoldable pub add_files : Bool → Pool → List Dirent → Result Pool
add_files allow_virt pool [] = ok pool
add_files allow_virt pool (other ∷ dentries) = add_files allow_virt pool dentries
add_files allow_virt pool (machine_file m_id parsed ∷ dentries) =
    add_file allow_virt pool parsed >>= λ m. add_files allow_virt (put pool m_id m) dentries

-- What comes of connecting to a host at a port, given as text or left to the default: `int` takes
-- no such text, the connection fails at once, or it ends with an error, or it is made.
pub data Answer : Type 0 where
  invalid_port unreachable refused accepted : Answer

abbrev pub is_up : Answer → Result Bool
is_up invalid_port = err value_error
is_up unreachable = ok false
is_up refused = ok false
is_up accepted = ok true

-- The checks of add_dir. They are made in the order of the names, which their outcome does not show
-- but in which of two invalid ports raises.
unfoldable pub query : (String → Option String → Answer) → Pool → Result Pool
query connect [] = ok []
query connect ((m_id, m) ∷ pool) = or_raise (get m.host.params "hostname") key_error >>= λ hostname.
    is_up (connect hostname (get m.host.params "rpc_port")) >>= λ up.
    query connect pool >>= λ rest. ok ((m_id, record m { available = some up }) ∷ rest)

-- Without checks
unfoldable pub assume_available : Pool → Pool
assume_available [] = []
assume_available ((m_id, m) ∷ pool) =
    (m_id, record m { available = some true }) ∷ assume_available pool

unfoldable pub drop_unavailable : Pool → Result Pool
drop_unavailable [] = ok []
drop_unavailable ((m_id, m) ∷ pool) = or_raise m.available key_error >>= λ up.
    drop_unavailable pool >>= λ rest. ok (if up then (m_id, m) ∷ rest else rest)

-- What AgentPoolManager() is given: `_allow_virt`, `_pool_checks`, os.listdir and the network.
pub record Site : Type 0 where
  pub allow_virt : Bool
  pub pool_checks : Bool
  pub listdir : String → Option (List Dirent)
  pub connect : String → Option String → Answer

-- A directory that cannot be listed leaves the pool as it is.
unfoldable pub add_dir : Site → Pool → String → Result Pool
add_dir site pool dir_path = elim (site.listdir dir_path) [
  | none ↦ ok pool
  | some dentries ↦ add_files site.allow_virt pool dentries >>= λ p.
      (if site.pool_checks then query site.connect p else ok (assume_available p)) >>= λ q.
      drop_unavailable q
]

-- The loop of AgentPoolManager() over the pools
unfoldable pub add_pools :
    Site → Dict String Pool → List (String × String) → Result (Dict String Pool)
add_pools site pools [] = ok pools
add_pools site pools ((pool_name, dir_path) ∷ more) = add_dir site [] dir_path >>= λ p.
    add_pools site (elim p [ [] ↦ pools | m ∷ ms ↦ put pools pool_name (m ∷ ms) ]) more
