-- ===== src/Pools/Tests.antt =====
-- The pools at a concrete site.
use lnst.Prelude.{String, ◌≡◌, refl, none, some, [], ◌∷◌, true, false, string_eq}
use lnst.Prelude.Dict.{get, has, put}
use lnst.Prelude.Text.{upper, rstrip, strip}
use lnst.Prelude.Exc.{err, pool_manager_error}
use lnst.Pools.{
  Pool, accepted, refused, Dirent, machine_file, other, Site, add_params, add_iface_params,
  normalize_hwaddr, process_iface_xml_data, hwaddr_dup, add_interface, add_interfaces,
  require_hostname, process_machine_xml_data, check_listed, add_file, add_files, query,
  drop_unavailable, add_dir, add_pools,
}
use lnst.Pools.Parser.{
  MachineTag, process_param, process_params, process_interface, process_security, process,
}
use lnst.Pools.Loaded.{IsLoaded, add_pools-IsLoaded}

abbrev tag_of : String → String → MachineTag
tag_of hostname mac = record {
  params = some (record { name = "hostname"; value = hostname } ∷ []);
  interfaces = some (
      record {
        id = "1";
        label = " net1";
        params = some (record { name = "hwaddr"; value = mac } ∷ []);
      }
      ∷ []);
  security = none;
}

file_of : String → String → String → Dirent
file_of name hostname mac = machine_file name (process (λ path. path) (tag_of hostname mac))

-- Of the two machines, "b" cannot be reached.
abbrev site : Site
unfolding file_of
site = record {
  allow_virt = false;
  pool_checks = true;
  listdir = λ dir. some (other ∷ file_of "m1" "a" "00:0a" ∷ file_of "m2" "b" "00:0b" ∷ []);
  connect = λ host port. elim (string_eq.beq host "a") [ true ↦ accepted | false ↦ refused ];
}

abbrev pool : Pool
pool =
    (
      "m1",
      record {
        host = record {
          interfaces = ("1", record { network = "net1"; params = ("hwaddr", "00:0A") ∷ [] }) ∷ [];
          params = ("hostname", "a") ∷ [];
        };
        security = record { auth_type = "none"; keys = none };
        available = some true;
      },
    )
    ∷ []

-- Two files with one host name
twice :
    add_files false [] (file_of "m1" "a" "00:0a" ∷ file_of "m2" "a" "00:0b" ∷ [])
    ≡ err pool_manager_error
unfolding file_of process process_params process_param process_interface process_security strip
    upper rstrip add_params add_iface_params normalize_hwaddr process_iface_xml_data hwaddr_dup
    add_interface add_interfaces require_hostname process_machine_xml_data check_listed add_file
    add_files get has put
twice = refl

add_pools-IsLoaded_example : IsLoaded site pool
unfolding file_of process process_params process_param process_interface process_security strip
    upper rstrip add_params add_iface_params normalize_hwaddr process_iface_xml_data hwaddr_dup
    add_interface add_interfaces require_hostname process_machine_xml_data check_listed add_file
    add_files query drop_unavailable add_dir add_pools get has put
add_pools-IsLoaded_example =
    add_pools-IsLoaded site (("lab", pool) ∷ []) (("lab", "/pool") ∷ []) "lab" pool refl refl
