-- ===== src/Database/Tests.antt =====
-- The device database at concrete inputs.
use lnst.Prelude.{
  ℕ, String, ◌≡◌, refl, none, some, [], ◌∷◌, true, false, arith, nat_eq, string_eq, count, ◌≤◌,
  elem, ==_iff,
}
use lnst.Prelude.Exc.{ok, ◌>>=◌}
use lnst.Prelude.Dict.{get, has, keys}
use lnst.Interfaces.{Manager, dev_created, Link, init_netlink}
use lnst.Interfaces.Mirrored.{Consistent}
use lnst.Database.{
  RemoteDevice, remote_device, Move, DevData, Database, table_of, get_netns_by_name, device_created,
  device_netns_change, moved_from, moved_to, tmp_match, new_device,
  add_device_to_netns_moved_devices,
}
use lnst.Database.Replay.{deliver_all, deliver, replay-mirrored}
use lnst.Database.Moves.{CanMove, Arrived, moved_device-Arrived, moved_device_stranded}

-- The initial namespace is 0, and `ns1` is 1; device 5 is at index 3 of the initial one.
abbrev machine : Database
machine = record {
  initns = 0;
  namespaces = ("ns1", 1) ∷ [];
  objects = λ o. remote_device "Device";
  next_object = 9;
  device_database = (0, (3, 5) ∷ []) ∷ (1, []) ∷ [];
  tmp_device_database = [];
  netns_moved_devices = [];
}

one_distinct : (k : ℕ) → count k (keys {V = ℕ} ((3, 5) ∷ [])) ≤ 1
unfolding count keys
one_distinct k = ground arith

none_distinct : (k : ℕ) → count k (keys {K = ℕ} {V = Move} []) ≤ 1
unfolding count keys
none_distinct k = omega arith

machine-CanMove : CanMove machine 5 3 0 7 1 none (some "ns1")
unfolding get_netns_by_name get has moved_from moved_to
machine-CanMove = record {
  src_table = (3, 5) ∷ [];
  dst_table = [];
  src_name = refl;
  dst_name = refl;
  apart = λ h. absurd (omega (arith, h));
  src_there = refl;
  dst_there = refl;
  src_distinct = one_distinct;
  held = refl;
  free = refl;
  not_moving = refl;
  moves_distinct = none_distinct;
  none_from = refl;
  none_to = refl;
}

moved_device-Arrived_example :
    (t : Database) × ((add_device_to_netns_moved_devices machine 5 3 1 0 >>= λ s1.
    device_netns_change s1 3 (some 7) none >>= λ s2.
    device_created s2 (record { ifindex = 7; hwaddr = some "00:01"; driver = "veth" }) (some "ns1"))
      ≡ ok t)
    × Arrived t 5 7 1
    × (get (table_of t 0) 3 ≡ none)
moved_device-Arrived_example =
    moved_device-Arrived machine 5 3 0 7 1 none (some "ns1") machine-CanMove (some "00:01") "veth"

no_tmp : (objects : ℕ → RemoteDevice) (dat : DevData) → tmp_match objects [] dat ≡ none
unfolding tmp_match
no_tmp objects dat = refl

moved_device_stranded_example :
    (t : Database) × ((add_device_to_netns_moved_devices machine 5 3 1 0 >>= λ s1.
    device_created s1 (record { ifindex = 7; hwaddr = some "00:01"; driver = "veth" }) (some "ns1")
    >>= λ s2. device_netns_change s2 3 (some 7) none)
      ≡ ok t)
    × (get (table_of t 1) 7 ≡ some 9)
    × (get t.netns_moved_devices 5
        ≡ some (record { src = 0; dst = 1; old_ifindex = 3; new_ifindex = some 7 }))
    × ((t.objects 5).cached ≡ true)
moved_device_stranded_example =
    moved_device_stranded machine 5 3 0 7 1 none (some "ns1") machine-CanMove (some "00:01") "veth"
      (no_tmp _ _) (λ h. absurd (omega (arith, h)))

-- An agent with one device, at index 3, that it has told of; a machine that knows of none.
abbrev link : Link
link = record {
  index = 3;
  ifi_type = 1;
  ifname = some "eth0";
  address = some "00:02";
  master = none;
}

abbrev agent : Manager
agent = record {
  device_classes = "Device" ∷ "LoopbackDevice" ∷ [];
  devices = (3, init_netlink "Device" false link) ∷ [];
  msg_queue = [];
  incoming = [];
  sent = dev_created 3 (some "eth0") (some "00:02") ∷ [];
  dropped = [];
}

agent-Consistent : Consistent agent
unfolding count keys get has elem
agent-Consistent = record {
  distinct = λ k. ground arith;
  own_index = λ i d h. ground (arith, ==_iff 3 i);
  alive = λ i d h. ground (arith, ==_iff 3 i);
  mirrored = λ i. ground arith;
  loopback = refl;
  device = refl;
}

abbrev fresh : Database
fresh = record machine { device_database = (0, []) ∷ [] }

abbrev driver_of : ℕ → String
driver_of i = "virtio"

replay-mirrored_example :
    has
      (table_of
        (new_device fresh (record { ifindex = 3; hwaddr = some "00:02"; driver = "virtio" }) 0)
        0)
      3
    ≡ has agent.devices 3
unfolding deliver_all deliver device_created get_netns_by_name get has
replay-mirrored_example =
    replay-mirrored driver_of none 0 fresh
      (new_device fresh (record { ifindex = 3; hwaddr = some "00:02"; driver = "virtio" }) 0) agent
      agent-Consistent refl refl refl 3
