-- ===== src/Containers/Tests.antt =====
-- ContainerMapper at a concrete input.
use lnst.Prelude.{String, ◌≡◌, refl, false, some, [], ◌∷◌, string_eq}
use lnst.Prelude.Dict.{get}
use lnst.Prelude.Exc.{ok}
use lnst.Mapper.Defs.{Hosts}
use lnst.Mapper.Mapping.{Mapping}
use lnst.Containers.{container_matches, map_containers, map_container_ifs, map_machine_interface}
use lnst.Containers.Served.{Served, container_matches-Served}

abbrev wanted : Hosts
wanted =
    (
      "m1",
      record { interfaces = ("eth0", record { network = "net1"; params = [] }) ∷ []; params = [] },
    )
    ∷ []

abbrev containers : Hosts
containers =
    (
      "m1",
      record {
        interfaces =
            ("e1", record { network = "lnst-net1"; params = ("hwaddr", "00:05") ∷ [] }) ∷ [];
        params = ("hostname", "10.0.0.5") ∷ [];
      },
    )
    ∷ []

abbrev prefixed : String → String
prefixed name = "lnst-net1"

abbrev one_match : Mapping
one_match = record {
  machines =
      (
        "m1",
        record {
          target = "m1";
          hostname = "10.0.0.5";
          interfaces = ("eth0", record { target = "e1"; hwaddr = "00:05" }) ∷ [];
        },
      )
      ∷ [];
  networks = ("lnst-net1", "lnst-net1") ∷ [];
  virtual = false;
  pool_name = some "default";
}

matched : container_matches prefixed ("lnst-net1" ∷ []) containers wanted ≡ ok one_match
unfolding container_matches map_containers map_container_ifs map_machine_interface get
matched = refl

container_matches-Served_example : Served prefixed containers wanted one_match.machines
container_matches-Served_example =
    container_matches-Served prefixed ("lnst-net1" ∷ []) containers wanted one_match matched
