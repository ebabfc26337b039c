-- ===== src/Interfaces/Steps.antt =====
-- InterfaceManager: what a message does to the table.
use lnst.Prelude.{
  ℕ, ◌⊎◌, ◌≡◌, refl, none, some, List, [], ◌∷◌, Bool, true, false, arith, ◌==◌, ==_iff,
  if◌then◌else◌, nat_beq, nat_eq, string_eq, elem,
}
use lnst.Prelude.Dict.{get, has, put, del, put-IsDistinct, del-IsDistinct, get-put, get-del}
use lnst.Interfaces.{
  Link, Gone, Message, new_link, new_addr, del_addr, del_link, other_message, Device, dev_created,
  Manager, updated, update_netlink, init_netlink, create_from, notice, update_at, Run, done,
  is_hwaddr, get_if_data,
}
use lnst.Interfaces.Mirrored.{Consistent}

updated_ifindex : (d : Device) (msg : Message) → (updated d msg).ifindex ≡ d.ifindex
updated_ifindex d (new_link l) = refl
updated_ifindex d (new_addr a) = refl
updated_ifindex d (del_addr a) = refl
updated_ifindex d (del_link g) = refl
updated_ifindex d other_message = refl

updated_deleted : (d : Device) (msg : Message) → (updated d msg).deleted ≡ d.deleted
updated_deleted d (new_link l) = refl
updated_deleted d (new_addr a) = refl
updated_deleted d (del_addr a) = refl
updated_deleted d (del_link g) = refl
updated_deleted d other_message = refl

-- The devices that are in the table for sure, after a message.
abbrev pub after_msg : (ℕ → Bool) → Message → ℕ → Bool
after_msg known (new_link l) i = if l.index == i then true else known i
after_msg known (new_addr a) i = known i
after_msg known (del_addr a) i = known i
after_msg known (del_link g) i = if g.index == i then false else known i
after_msg known other_message i = known i

-- The data of a device that the message brings can be read, without a look for its master.
abbrev pub IsReadable : (ℕ → Bool) → Message → Type 0
IsReadable known (new_link l) =
    (known l.index ≡ true) ⊎ ((is_hwaddr l.address ≡ true) × (l.master ≡ none))
IsReadable known (new_addr a) = Unit
IsReadable known (del_addr a) = Unit
IsReadable known (del_link g) = Unit
IsReadable known other_message = Unit

abbrev pub AreReadable : (ℕ → Bool) → List Message → Type 0
AreReadable known [] = Unit
AreReadable known (msg ∷ msgs) = IsReadable known msg × AreReadable (after_msg known msg) msgs

-- How a message leaves the manager.
pub record Handled (m : Manager) (known : ℕ → Bool) (n : Manager) : Type 0 where
  pub consistent : Consistent n
  pub knows : (i : ℕ) → known i ≡ true → has n.devices i ≡ true
  pub queue : n.msg_queue ≡ m.msg_queue

abbrev pub Known : Manager → (ℕ → Bool) → Type 0
Known m known = (i : ℕ) → known i ≡ true → has m.devices i ≡ true

update_at_lem :
    (m : Manager) (i : ℕ) (d : Device) (msg : Message)
    → Consistent m
    → get m.devices i ≡ some d
    → (n : Manager) × (update_at m i d msg ≡ done n)
      × Consistent n
      × ((j : ℕ) → has n.devices j ≡ has m.devices j)
      × (n.msg_queue ≡ m.msg_queue)
unfolding update_at update_netlink has
update_at_lem m i d msg c there = (
  record m { devices = put m.devices i (updated d msg) },
  ground (arith, c.alive i d there, c.own_index i d there),
  record {
    distinct = put-IsDistinct m.devices i (updated d msg) c.distinct;
    own_index = λ j e h. ground (
      arith,
      ==_iff i j,
      h,
      get-put m.devices i j (updated d msg),
      c.own_index j e,
      c.own_index i d there,
      updated_ifindex d msg,
    );
    alive = λ j e h. ground (
      arith,
      ==_iff i j,
      h,
      get-put m.devices i j (updated d msg),
      c.alive j e,
      c.alive i d there,
      updated_deleted d msg,
    );
    mirrored =
        λ j. ground (arith, ==_iff i j, there, get-put m.devices i j (updated d msg), c.mirrored j);
    loopback = c.loopback;
    device = c.device;
  },
  λ j. ground (arith, ==_iff i j, there, get-put m.devices i j (updated d msg)),
  refl,
)

pub updated-Handled :
    (rescan : Manager → Run) (m : Manager) (known : ℕ → Bool) (i : ℕ) (d : Device) (msg : Message)
    → Consistent m
    → Known m known
    → get m.devices i ≡ some d
    → (n : Manager) × (update_at m i d msg ≡ done n)
      × Handled m (λ j. if i == j then true else known j) n
unfolding has
updated-Handled rescan m known i d msg c k there =
    let u = update_at_lem m i d msg c there in
    (
      u.0,
      u.1,
      record {
        consistent = u.2;
        knows = λ j h. ground (arith, u.3 j, ==_iff i j, there, h, k j);
        queue = u.4;
      },
    )

get_if_data_lem :
    (rescan : Manager → Run) (m : Manager) (l : Link)
    → is_hwaddr l.address ≡ true
    → l.master ≡ none
    → get_if_data rescan m l ≡ done m
unfolding get_if_data
get_if_data_lem rescan m l good no_master = rw (get_if_data, good, no_master) refl

pub create_from_lem :
    (rescan : Manager → Run) (m : Manager) (l : Link) (known : ℕ → Bool)
    → Consistent m
    → Known m known
    → get m.devices l.index ≡ none
    → is_hwaddr l.address ≡ true
    → l.master ≡ none
    → (n : Manager) × (create_from rescan m l ≡ done n)
      × Handled m (λ j. if l.index == j then true else known j) n
unfolding create_from has
create_from_lem rescan m l known c k absent good no_master =
    let loopback = nat_beq l.ifi_type 772 in
    let d = init_netlink (if loopback then "LoopbackDevice" else "Device") loopback l in
    (
      record m {
        devices = put m.devices l.index d;
        sent = dev_created l.index l.ifname l.address ∷ m.sent;
      },
      rw
          (
            create_from,
            cls_lem m loopback c,
            get_if_data_lem rescan (record m { devices = put m.devices l.index d }) l good
                no_master,
          )
          refl,
      record {
        consistent = record {
          distinct = put-IsDistinct m.devices l.index d c.distinct;
          own_index = λ j e h.
              ground (arith, ==_iff l.index j, h, get-put m.devices l.index j d, c.own_index j e);
          alive = λ j e h.
              ground (arith, ==_iff l.index j, h, get-put m.devices l.index j d, c.alive j e);
          mirrored =
              λ j. ground (arith, ==_iff l.index j, get-put m.devices l.index j d, c.mirrored j);
          loopback = c.loopback;
          device = c.device;
        };
        knows = λ j h. ground (arith, ==_iff l.index j, get-put m.devices l.index j d, h, k j);
        queue = refl;
      },
    )
  where
    cls_lem :
        (m : Manager) (loopback : Bool)
        → Consistent m
        → elem (if loopback then "LoopbackDevice" else "Device") m.device_classes ≡ true
    cls_lem m true c = c.loopback
    cls_lem m false c = c.device

pub deleted_lem :
    (m : Manager) (g : Gone) (known : ℕ → Bool) (dropped : List Device)
    → Consistent m
    → Known m known
    → Handled m
        (λ j. if g.index == j then false else known j)
        (record m { devices = del m.devices g.index; sent = notice g ∷ m.sent; dropped = dropped })
unfolding has
deleted_lem m g known dropped c k = record {
  consistent = record {
    distinct = del-IsDistinct m.devices g.index c.distinct;
    own_index = λ j e h.
        ground (arith, h, get-del m.devices g.index j (c.distinct g.index), c.own_index j e);
    alive =
        λ j e h. ground (arith, h, get-del m.devices g.index j (c.distinct g.index), c.alive j e);
    mirrored = λ j. ground (arith, get-del m.devices g.index j (c.distinct g.index), c.mirrored j);
    loopback = c.loopback;
    device = c.device;
  };
  knows = λ j h. ground (arith, get-del m.devices g.index j (c.distinct g.index), h, k j);
  queue = refl;
}

pub still :
    (m : Manager) (known : ℕ → Bool) (i : ℕ)
    → Consistent m
    → Known m known
    → Handled m (λ j. if i == j then false else known j) m
still m known i c k = record { consistent = c; knows = λ j h. ground (arith, h, k j); queue = refl }

pub same : (m : Manager) (known : ℕ → Bool) → Consistent m → Known m known → Handled m known m
same m known c k = record { consistent = c; knows = k; queue = refl }

-- Where the device was known, so it is.
pub weaker :
    (m n : Manager) (known : ℕ → Bool) (i : ℕ)
    → Handled m (λ j. if i == j then true else known j) n
    → Handled m known n
weaker m n known i h = record {
  consistent = h.consistent;
  knows = λ j e. ground (arith, e, h.knows j);
  queue = h.queue;
}
