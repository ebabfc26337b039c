-- ===== src/Database.antt =====
-- lnst/Controller/Machine.py: the device database of a machine, and the devices it is made of
-- (lnst/Devices/RemoteDevice.py, lnst/Devices/VirtualDevice.py). A network namespace and a device
-- are objects that several parts hold: both are known by a number, and `objects` is the store of
-- the devices.
pub mod Replay
pub mod Moves
pub mod Tests
use lnst.Prelude.{
  ℕ, ◌+◌, String, Option, none, some, List, [], ◌∷◌, ◌++◌, Bool, true, false, ◌&&◌, ◌==◌,
  if◌then◌else◌, nat_beq, nat_eq, string_eq, remove_first,
}
use lnst.Prelude.Dict.{Dict, get, has, put, del}
use lnst.Prelude.Exc.{Result, ok, err, key_error, machine_error, or_raise, ◌>>=◌}

-- `orig_hwaddr` is that of a VirtualDevice, and `virtual` says that the device is one. `cached` is
-- `_cached`: the device is read-only.
pub record RemoteDevice : Type 0 where
  pub dev_cls : String
  pub virtual : Bool
  pub orig_hwaddr : Option String
  pub ifindex : Option ℕ
  pub netns : Option ℕ
  pub deleted : Bool
  pub cached : Bool

-- RemoteDevice(dev_cls)
abbrev pub remote_device : String → RemoteDevice
remote_device dev_cls = record {
  dev_cls = dev_cls;
  virtual = false;
  orig_hwaddr = none;
  ifindex = none;
  netns = none;
  deleted = false;
  cached = false;
}

-- A value of `_netns_moved_devices`
pub record Move : Type 0 where
  pub src : ℕ
  pub dst : ℕ
  pub old_ifindex : ℕ
  pub new_ifindex : Option ℕ

-- What the agent tells of a new device.
pub record DevData : Type 0 where
  pub ifindex : ℕ
  pub hwaddr : Option String
  pub driver : String

pub record Database : Type 0 where
  pub initns : ℕ
  pub namespaces : Dict String ℕ
  pub objects : ℕ → RemoteDevice
  pub next_object : ℕ
  pub device_database : Dict ℕ (Dict ℕ ℕ)
  pub tmp_device_database : List ℕ
  pub netns_moved_devices : Dict ℕ Move

abbrev pub update : (ℕ → RemoteDevice) → ℕ → RemoteDevice → ℕ → RemoteDevice
update objects o dev p = if nat_beq p o then dev else objects p

abbrev pub same_option : {A : Type 0} → (A → A → Bool) → Option A → Option A → Bool
same_option same none none = true
same_option same none (some b) = false
same_option same (some a) none = false
same_option same (some a) (some b) = same a b

-- _match_update_data: of a RemoteDevice, False
abbrev pub match_update_data : RemoteDevice → DevData → Bool
match_update_data dev dat = dev.virtual && same_option ◌==◌ dev.orig_hwaddr dat.hwaddr

-- _get_netns_by_name
unfoldable pub get_netns_by_name : Database → Option String → Result ℕ
get_netns_by_name s none = ok s.initns
get_netns_by_name s (some name) = or_raise (get s.namespaces name) machine_error

-- add_netns, without the call of the agent; a namespace that was there loses its devices.
unfoldable pub add_netns : Database → String → ℕ → Database
add_netns s name netns = record s {
  namespaces = put s.namespaces name netns;
  device_database = put s.device_database netns [];
}

-- add_tmp_device
unfoldable pub add_tmp_device : Database → ℕ → Database
add_tmp_device s dev = record s { tmp_device_database = s.tmp_device_database ++ (dev ∷ []) }

-- `self._device_database.get(netns)`, empty where there is none
abbrev pub table_of : Database → ℕ → Dict ℕ ℕ
table_of s netns = elim (get s.device_database netns) [ none ↦ [] | some table ↦ table ]

-- _add_device_to_database
unfoldable pub add_device_to_database : Database → ℕ → ℕ → ℕ → Database
add_device_to_database s ifindex dev netns = record s {
  device_database = put s.device_database netns (put (table_of s netns) ifindex dev);
}

-- _get_device_from_database
unfoldable pub get_device_from_database : Database → ℕ → ℕ → Result ℕ
get_device_from_database s ifindex netns =
    or_raise (get s.device_database netns) machine_error >>= λ table.
    or_raise (get table ifindex) machine_error

-- The first of the temporary devices that the data is about.
unfoldable pub tmp_match : (ℕ → RemoteDevice) → List ℕ → DevData → Option ℕ
tmp_match objects [] dat = none
tmp_match objects (dev ∷ devs) dat =
    if match_update_data (objects dev) dat then some dev else tmp_match objects devs dat

-- The first device that was on its way to the namespace and the index.
unfoldable pub moved_to : Dict ℕ Move → ℕ → ℕ → Option ℕ
moved_to [] netns ifindex = none
moved_to ((dev, m) ∷ moves) netns ifindex =
    if nat_beq m.dst netns && same_option nat_beq m.new_ifindex (some ifindex)
    then some dev
    else moved_to moves netns ifindex

-- The three ways in which device_created comes to its device.
unfoldable pub arrive : Database → ℕ → ℕ → ℕ → Database
arrive s dev ifindex netns = record s {
  objects =
      update s.objects dev
        (record (s.objects dev) { cached = false; ifindex = some ifindex; netns = some netns });
  netns_moved_devices = del s.netns_moved_devices dev;
}

unfoldable pub settle : Database → ℕ → ℕ → Database
settle s dev ifindex = record s {
  objects = update s.objects dev (record (s.objects dev) { ifindex = some ifindex });
  tmp_device_database = remove_first s.tmp_device_database dev;
}

unfoldable pub discover : Database → DevData → ℕ → Database
discover s dat netns = record s {
  objects =
      update s.objects s.next_object
        (record (remote_device (if dat.driver == "loopback" then "LoopbackDevice" else "Device")) {
          ifindex = some dat.ifindex;
          netns = some netns;
        });
  next_object = s.next_object + 1;
}

-- The device that device_created comes to, and the state once it is known.
unfoldable pub find_device : Database → DevData → ℕ → Database × ℕ
find_device s dat netns = elim (moved_to s.netns_moved_devices netns dat.ifindex) [
  | some dev ↦ (arrive s dev dat.ifindex netns, dev)
  | none ↦ elim (tmp_match s.objects s.tmp_device_database dat) [
    | some dev ↦ (settle s dev dat.ifindex, dev)
    | none ↦ (discover s dat netns, s.next_object)
  ]
]

-- device_created for an index that is not in the namespace's table
unfoldable pub new_device : Database → DevData → ℕ → Database
new_device s dat netns =
    let found = find_device s dat netns in add_device_to_database found.0 dat.ifindex found.1 netns

unfoldable pub device_created : Database → DevData → Option String → Result Database
device_created s dat netns = get_netns_by_name s netns >>= λ ns.
    or_raise (get s.device_database ns) key_error >>= λ table.
    ok (if has table dat.ifindex then s else new_device s dat ns)

unfoldable pub device_delete : Database → ℕ → Option String → Result Database
device_delete s ifindex netns = get_netns_by_name s netns >>= λ ns.
    or_raise (get s.device_database ns) key_error >>= λ table. ok (elim (get table ifindex) [
      | none ↦ s
      | some dev ↦ record s {
        objects = update s.objects dev (record (s.objects dev) { deleted = true });
        device_database = put s.device_database ns (del table ifindex);
      }
    ])

-- The first device that leaves the namespace from the index.
unfoldable pub moved_from : Dict ℕ Move → ℕ → ℕ → Option (ℕ × Move)
moved_from [] netns ifindex = none
moved_from ((dev, m) ∷ moves) netns ifindex =
    if nat_beq m.src netns && nat_beq ifindex m.old_ifindex
    then some (dev, m)
    else moved_from moves netns ifindex

unfoldable pub device_netns_change : Database → ℕ → Option ℕ → Option String → Result Database
device_netns_change s ifindex new_ifindex netns = get_netns_by_name s netns >>= λ ns.
    or_raise (moved_from s.netns_moved_devices ns ifindex) machine_error >>= λ found.
    or_raise (get s.device_database ns) key_error >>= λ table. ok (record s {
      netns_moved_devices =
          put s.netns_moved_devices found.0 (record (found.1) { new_ifindex = new_ifindex });
      device_database = put s.device_database ns (del table ifindex);
    })

-- _add_device_to_netns_moved_devices: `ifindex` is the device's. The calls by which
-- enable_readonly_cache reads the device's attributes return.
unfoldable pub add_device_to_netns_moved_devices : Database → ℕ → ℕ → ℕ → ℕ → Result Database
add_device_to_netns_moved_devices s dev ifindex dst src =
    or_raise (get s.device_database src) key_error >>= λ table.
    or_raise (get table ifindex) key_error >>= λ o. ok (record s {
      objects = update s.objects dev (record (s.objects dev) { cached = true });
      device_database = put s.device_database src (del table ifindex);
      netns_moved_devices =
          put s.netns_moved_devices dev
            (record { src = src; dst = dst; old_ifindex = ifindex; new_ifindex = none });
    })

-- dev_db_get_ifindex
unfoldable pub dev_db_get_ifindex : Database → ℕ → Option String → Result (Option ℕ)
dev_db_get_ifindex s ifindex netns = get_netns_by_name s netns >>= λ ns.
    or_raise (get s.device_database ns) key_error >>= λ table. ok (get table ifindex)
