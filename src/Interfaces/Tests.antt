-- ===== src/Interfaces/Tests.antt =====
-- InterfaceManager at concrete inputs.
use lnst.Prelude.{◌≡◌, refl, none, some, List, [], ◌∷◌, true, false, arith, nat_eq, string_eq, elem}
use lnst.Prelude.Exc.{lnst_error}
use lnst.Prelude.Dict.{get, put}
use lnst.Interfaces.{
  Link, Addr, Message, new_link, new_addr, del_addr, del_link, Manager, new_manager,
  handle_netlink_msgs, raised, handle_queue, pull_netlink_messages_into_queue, handle_netlink_msg,
  create_from, get_if_data, is_hwaddr, colons, init_netlink, add_address, remove_address,
  new_address, deleted_address,
}
use lnst.Interfaces.Mirrored.{Consistent}
use lnst.Interfaces.Addresses.{copies, removed_iff_local}

abbrev eth0 : Link
eth0 = record {
  index = 2;
  ifi_type = 1;
  ifname = some "eth0";
  address = some "00:00:00:00:00:01";
  master = none;
}

abbrev lo : Link
lo = record { index = 1; ifi_type = 772; ifname = some "lo"; address = none; master = none }

abbrev point_to_point : Addr
point_to_point = record {
  index = 2;
  is_inet = true;
  local = "10.0.0.1";
  address = "10.0.0.2";
  prefixlen = 32;
  flags = some 128;
}

abbrev messages : List Message
messages =
    new_link lo
    ∷ new_link eth0
    ∷ new_addr point_to_point
    ∷ del_addr point_to_point
    ∷ new_link (record eth0 { master = some 4 })
    ∷ del_link (record { index = 1; of_bridge = false; new_netnsid = none; new_ifindex = none })
    ∷ []

-- A device with an address of four bytes.
abbrev tunnel : Link
tunnel = record {
  index = 3;
  ifi_type = 768;
  ifname = some "tunl0";
  address = some "00:00:00:00";
  master = none;
}

abbrev started : Manager
started = record new_manager {
  device_classes = "Device" ∷ "LoopbackDevice" ∷ [];
  incoming = messages ∷ [];
}

abbrev with_tunnel : Manager
with_tunnel = record started { incoming = (new_link tunnel ∷ new_link lo ∷ []) ∷ [] }

-- The table has the tunnel, the controller was not told of it, and the next message waits.
tunnel_raises :
    handle_netlink_msgs 5 with_tunnel
    ≡ raised lnst_error (record with_tunnel {
      devices = (3, init_netlink "Device" false tunnel) ∷ [];
      msg_queue = new_link lo ∷ [];
      incoming = [];
    })
unfolding handle_netlink_msgs handle_queue pull_netlink_messages_into_queue handle_netlink_msg
    create_from get_if_data is_hwaddr colons get put elem
tunnel_raises = refl

removed_iff_local_example :
    copies (new_address point_to_point) (
      remove_address (add_address [] (new_address point_to_point)) (deleted_address point_to_point))
    ≡ 1
removed_iff_local_example = removed_iff_local [] point_to_point (λ a. omega arith)
