-- ===== src/Interfaces.antt =====
-- lnst/Agent/InterfaceManager.py and the netlink part of lnst/Devices/Device.py: the agent's table
-- of network devices, kept by the kernel's messages, and what the controller is told of it.
-- A message is what pyroute2 decodes; addresses are in the packed form that `inet_pton` gives.
pub mod Mirrored
pub mod Steps
pub mod Consistent
pub mod Addresses
pub mod Tests
use Prim.Native.Char.{code}
use lnst.Prelude.{
  ℕ, zero, suc, ◌||◌, String, Option, none, some, List, [], ◌∷◌, ◌++◌, Bool, true, false, not, ◌&&◌,
  ◌==◌, if◌then◌else◌, nat_beq, nat_eq, string_eq, elem,
}
use lnst.Prelude.Dict.{Dict, get, has, put, del}
use lnst.Prelude.Exc.{Result, ok, err, Error, key_error, lnst_error}
use lnst.Prelude.Text.{is_empty}

-- BaseIpAddress
pub record IpAddress : Type 0 where
  pub addr : String
  pub prefixlen : ℕ
  pub flags : Option ℕ

-- BaseIpAddress.__eq__
abbrev pub same_address : IpAddress → IpAddress → Bool
same_address a b = (a.addr == b.addr) && nat_beq a.prefixlen b.prefixlen

-- The fields of a link message that are read; `master` is IFLA_MASTER. `address`, IFLA_ADDRESS, is
-- pairs of hexadecimal digits with colons between them, of any number.
pub record Link : Type 0 where
  pub index : ℕ
  pub ifi_type : ℕ
  pub ifname : Option String
  pub address : Option String
  pub master : Option ℕ

-- RTM_NEWADDR and RTM_DELADDR: `is_inet` where the family is AF_INET, `local` for IFA_LOCAL,
-- `address` for IFA_ADDRESS, which these messages have
pub record Addr : Type 0 where
  pub index : ℕ
  pub is_inet : Bool
  pub local : String
  pub address : String
  pub prefixlen : ℕ
  pub flags : Option ℕ

-- RTM_DELLINK: `of_bridge` where the family is PF_BRIDGE
pub record Gone : Type 0 where
  pub index : ℕ
  pub of_bridge : Bool
  pub new_netnsid : Option ℕ
  pub new_ifindex : Option ℕ

pub data Message : Type 0 where
  new_link : Link → Message
  new_addr del_addr : Addr → Message
  del_link : Gone → Message
  other_message : Message

-- Device: the class it has is `LoopbackDevice` or `Device`
pub record Device : Type 0 where
  pub cls : String
  pub ifindex : ℕ
  pub nl_msg : Link
  pub enabled : Bool
  pub deleted : Bool
  pub ip_addrs : List IpAddress

-- What is sent to the controller; `dev_created` carries what identifies the device.
pub data Notice : Type 0 where
  dev_created : ℕ → Option String → Option String → Notice
  dev_deleted : ℕ → Notice
  dev_netns_changed : ℕ → Option ℕ → Notice

-- `incoming` is what each reading of the netlink socket, to its end, will give. `sent` is what went to
-- the controller, the last first; `dropped` the devices that were taken out of the table by the
-- kernel's messages, the last first.
pub record Manager : Type 0 where
  pub device_classes : List String
  pub devices : Dict ℕ Device
  pub msg_queue : List Message
  pub incoming : List (List Message)
  pub sent : List Notice
  pub dropped : List Device

abbrev pub new_manager : Manager
new_manager = record {
  device_classes = [];
  devices = [];
  msg_queue = [];
  incoming = [];
  sent = [];
  dropped = [];
}

-- What a call on the manager comes to: it returns or raises, and leaves the manager either way, or
-- has not ended.
pub data Run : Type 0 where
  done : Manager → Run
  raised : Error → Manager → Run
  running : Run

infixl 5 ◌>>>◌
abbrev pub ◌>>>◌ : Run → (Manager → Run) → Run
done m >>> next = next m
raised e m >>> next = raised e m
running >>> next = running

unfoldable pub add_device_class : Manager → String → Result Manager
add_device_class m name =
    if elem name m.device_classes
    then err lnst_error
    else ok (record m { device_classes = m.device_classes ++ (name ∷ []) })

-- `addr in self._ip_addrs`, and the address of the list that it is equal to
unfoldable pub known_address : List IpAddress → IpAddress → Option IpAddress
known_address [] a = none
known_address (b ∷ bs) a = if same_address b a then some b else known_address bs a

-- The first address that is equal is taken out.
unfoldable pub without : List IpAddress → IpAddress → List IpAddress
without [] a = []
without (b ∷ bs) a = if same_address b a then bs else b ∷ without bs a

abbrev pub same_flags : Option ℕ → Option ℕ → Bool
same_flags none none = true
same_flags (some a) (some b) = nat_beq a b
same_flags none (some b) = false
same_flags (some a) none = false

unfoldable pub add_address : List IpAddress → IpAddress → List IpAddress
add_address addrs a = elim (known_address addrs a) [
  | none ↦ addrs ++ (a ∷ [])
  | some old ↦ if same_flags a.flags old.flags then addrs else without addrs a ++ (a ∷ [])
]

-- The address that RTM_NEWADDR stores, and the one that RTM_DELADDR looks for.
abbrev pub new_address : Addr → IpAddress
new_address a = record {
  addr = if a.is_inet then a.local else a.address;
  prefixlen = a.prefixlen;
  flags = a.flags;
}

abbrev pub deleted_address : Addr → IpAddress
deleted_address a = record { addr = a.address; prefixlen = a.prefixlen; flags = none }

unfoldable pub remove_address : List IpAddress → IpAddress → List IpAddress
remove_address addrs a = elim (known_address addrs a) [ none ↦ addrs | some old ↦ without addrs a ]

abbrev pub index_of : Message → Option ℕ
index_of (new_link l) = some l.index
index_of (new_addr a) = some a.index
index_of (del_addr a) = some a.index
index_of (del_link g) = some g.index
index_of other_message = none

-- The branches of _update_netlink on the type of the message.
abbrev pub updated : Device → Message → Device
updated d (new_link l) = record d { nl_msg = l }
updated d (new_addr a) = record d { ip_addrs = add_address d.ip_addrs (new_address a) }
updated d (del_addr a) = record d { ip_addrs = remove_address d.ip_addrs (deleted_address a) }
updated d (del_link g) = d
updated d other_message = d

-- DeviceDeleted and DeviceError are both errors of LNST.
unfoldable pub update_netlink : Device → ℕ → Message → Result Device
update_netlink d index msg =
    if d.deleted
    then err lnst_error
    else if nat_beq d.ifindex index
    then ok (updated d msg)
    else err lnst_error

-- A device of the class, after _init_netlink and, but for the loopback, _disable.
abbrev pub init_netlink : String → Bool → Link → Device
init_netlink cls enabled l = record {
  cls = cls;
  ifindex = l.index;
  nl_msg = l;
  enabled = enabled;
  deleted = false;
  ip_addrs = [];
}

unfoldable pub colons : String → ℕ
colons String.[] = 0
colons (String.◌∷◌ c s) = let rest = colons s in if nat_beq (code c) b':' then suc rest else rest

-- `hwaddr`, where _parse_addr takes the text: six parts. Without a text there is no address.
unfoldable pub is_hwaddr : Option String → Bool
unfolding colons
is_hwaddr none = true
is_hwaddr (some s) = is_empty s || nat_beq (colons s) 5

-- _get_if_data: `hwaddr`, which raises LnstError, and `master`, whose get_device rescans the devices
-- and raises DeviceNotFound. What else it reads raises nothing that is not caught.
unfoldable pub get_if_data : (Manager → Run) → Manager → Link → Run
unfolding is_hwaddr
get_if_data rescan m l =
    if is_hwaddr l.address
    then elim l.master [
      | none ↦ done m
      | some i ↦ rescan m >>> λ n. if has n.devices i then done n else raised lnst_error n
    ]
    else raised lnst_error m

-- The branch for a message about a link that is not in the table: the device is there before its
-- data is read.
unfoldable pub create_from : (Manager → Run) → Manager → Link → Run
create_from rescan m l =
    let loopback = nat_beq l.ifi_type 772 in
    let cls = if loopback then "LoopbackDevice" else "Device" in
    if elem cls m.device_classes
    then (get_if_data rescan
          (record m { devices = put m.devices l.index (init_netlink cls loopback l) }) l
        >>> λ n. done (record n { sent = dev_created l.index l.ifname l.address ∷ n.sent }))
    else raised key_error m

abbrev pub notice : Gone → Notice
notice g = elim g.new_netnsid [
  | none ↦ dev_deleted g.index
  | some id ↦ dev_netns_changed g.index g.new_ifindex
]

unfoldable pub update_at : Manager → ℕ → Device → Message → Run
update_at m index d msg = elim (update_netlink d index msg) [
  | err e ↦ raised e m
  | ok e ↦ done (record m { devices = put m.devices index e })
]

-- _handle_netlink_msg; `rescan` is rescan_devices
unfoldable pub handle_netlink_msg : (Manager → Run) → Manager → Message → Run
handle_netlink_msg rescan m (new_link l) = elim (get m.devices l.index) [
  | some d ↦ update_at m l.index d (new_link l)
  | none ↦ create_from rescan m l
]
handle_netlink_msg rescan m (new_addr a) = elim (get m.devices a.index) [
  | some d ↦ update_at m a.index d (new_addr a)
  | none ↦ done m
]
handle_netlink_msg rescan m (del_addr a) = elim (get m.devices a.index) [
  | some d ↦ update_at m a.index d (del_addr a)
  | none ↦ done m
]
handle_netlink_msg rescan m (del_link g) =
    if g.of_bridge then done m else elim (get m.devices g.index) [
      | none ↦ done m
      | some d ↦ done (record m {
        devices = del m.devices g.index;
        sent = notice g ∷ m.sent;
        dropped = record d { deleted = true } ∷ m.dropped;
      })
    ]
handle_netlink_msg rescan m other_message = done m

-- What the socket has, to its end, goes into the queue.
unfoldable pub pull_netlink_messages_into_queue : Manager → Manager
pull_netlink_messages_into_queue m = elim m.incoming [
  | [] ↦ m
  | batch ∷ batches ↦ record m { msg_queue = m.msg_queue ++ batch; incoming = batches }
]

-- `while len(self._msg_queue)`: the fuel counts messages. Where a message makes the code rescan the
-- devices, which handles the queue too, that comes first.
unfoldable pub handle_queue : ℕ → Manager → Run
handle_queue zero m = running
handle_queue (suc fuel) m = elim m.msg_queue [
  | [] ↦ done m
  | msg ∷ msgs ↦
      handle_netlink_msg (λ n. handle_queue fuel (pull_netlink_messages_into_queue n))
        (record m { msg_queue = msgs }) msg
      >>> λ n. handle_queue fuel n
]

unfoldable pub handle_netlink_msgs : ℕ → Manager → Run
handle_netlink_msgs fuel m = handle_queue fuel (pull_netlink_messages_into_queue m)

unfoldable pub untrack_device : Manager → ℕ → Manager
untrack_device m ifindex =
    if has m.devices ifindex then record m { devices = del m.devices ifindex } else m
