-- ===== src/Database/Moves.antt =====
-- A device that moves to another network namespace.
use lnst.Prelude.{
  ℕ, String, ◌≡◌, ◌≢◌, refl, Option, none, some, [], ◌∷◌, true, false, arith, ==_iff, nat_beq_iff,
  nat_eq, string_eq,
}
use lnst.Prelude.Dict.{
  Dict, get, has, put, del, IsDistinct, put-IsDistinct, del-IsDistinct, get-put, get-del,
  get-put_self,
}
use lnst.Prelude.Exc.{ok, ◌>>=◌}
use lnst.Database.{
  Database, DevData, Move, update, table_of, get_netns_by_name, add_device_to_database, arrive,
  discover, find_device, new_device, device_created, device_netns_change, moved_to, moved_from,
  tmp_match, add_device_to_netns_moved_devices,
}

-- The device stands at the index of the namespace, is the object that it was, has that index and
-- namespace, and can be used; it is on its way no longer.
pub record Arrived (s : Database) (dev ifindex netns : ℕ) : Type 0 where
  pub there : get (table_of s netns) ifindex ≡ some dev
  pub index : (s.objects dev).ifindex ≡ some ifindex
  pub namespace : (s.objects dev).netns ≡ some netns
  pub usable : (s.objects dev).cached ≡ false
  pub done : get s.netns_moved_devices dev ≡ none

moved_to_new :
    (d : Dict ℕ Move) (dev : ℕ) (m : Move) (netns ifindex : ℕ)
    → get d dev ≡ none
    → moved_to d netns ifindex ≡ none
    → m.dst ≡ netns
    → m.new_ifindex ≡ some ifindex
    → moved_to (put d dev m) netns ifindex ≡ some dev
unfolding moved_to put get
moved_to_new [] dev m netns ifindex h k e f =
    ground (arith, e, f, nat_beq_iff ifindex ifindex, nat_beq_iff netns netns)
moved_to_new ((i, n) ∷ d) dev m netns ifindex h k e f =
    ground (arith, moved_to_new d dev m netns ifindex)

moved_from_new :
    (d : Dict ℕ Move) (dev : ℕ) (m : Move) (netns ifindex : ℕ)
    → get d dev ≡ none
    → moved_from d netns ifindex ≡ none
    → m.src ≡ netns
    → m.old_ifindex ≡ ifindex
    → moved_from (put d dev m) netns ifindex ≡ some (dev, m)
unfolding moved_from put get
moved_from_new [] dev m netns ifindex h k e f =
    ground (arith, e, f, nat_beq_iff ifindex ifindex, nat_beq_iff netns netns)
moved_from_new ((i, n) ∷ d) dev m netns ifindex h k e f =
    ground (arith, moved_from_new d dev m netns ifindex)

put_again : (d : Dict ℕ Move) (k : ℕ) (m n : Move) → put (put d k m) k n ≡ put d k n
unfolding put
put_again [] k m n = ground (arith, ==_iff k k)
put_again ((i, o) ∷ d) k m n = ground (arith, ==_iff i k, put_again d k m n)

-- What has to hold before the device `dev` leaves index `i` of `src` for `dst`, where its index
-- will be `j`: the two namespaces and their tables are known, the device is in its table, the index
-- is free in the other, and no other move is between the same places.
pub record CanMove (s : Database) (dev i src j dst : ℕ) (from to : Option String) : Type 0 where
  pub src_table : Dict ℕ ℕ
  pub dst_table : Dict ℕ ℕ
  pub src_name : get_netns_by_name s from ≡ ok src
  pub dst_name : get_netns_by_name s to ≡ ok dst
  pub apart : src ≢ dst
  pub src_there : get s.device_database src ≡ some src_table
  pub dst_there : get s.device_database dst ≡ some dst_table
  pub src_distinct : IsDistinct src_table
  pub held : get src_table i ≡ some dev
  pub free : has dst_table j ≡ false
  pub not_moving : get s.netns_moved_devices dev ≡ none
  pub moves_distinct : IsDistinct s.netns_moved_devices
  pub none_from : moved_from s.netns_moved_devices src i ≡ none
  pub none_to : moved_to s.netns_moved_devices dst j ≡ none

get-add_device :
    (s : Database) (j dev dst : ℕ)
    → get (table_of (add_device_to_database s j dev dst) dst) j ≡ some dev
unfolding add_device_to_database
get-add_device s j dev dst = ground (
  arith,
  get-put_self s.device_database dst (put (table_of s dst) j dev),
  get-put_self (table_of s dst) j dev,
)

name_kept :
    (s t : Database) (netns : Option String)
    → t.initns ≡ s.initns
    → t.namespaces ≡ s.namespaces
    → get_netns_by_name t netns ≡ get_netns_by_name s netns
unfolding get_netns_by_name
name_kept s t none h k = cc
name_kept s t (some name) h k = rw k refl

module _ (s : Database) (dev i src j dst : ℕ) (from to : Option String)
    (c : CanMove s dev i src j dst from to) (hwaddr : Option String) (driver : String) where
  started : Move
  started = record { src = src; dst = dst; old_ifindex = i; new_ifindex = none }

  answered : Move
  answered = record started { new_ifindex = some j }

  leaving : Database
  leaving = record s {
    objects = update s.objects dev (record (s.objects dev) { cached = true });
    device_database = put s.device_database src (del c.src_table i);
    netns_moved_devices = put s.netns_moved_devices dev started;
  }

  left : Database
  left = record leaving {
    netns_moved_devices = put leaving.netns_moved_devices dev answered;
    device_database = put leaving.device_database src (del (del c.src_table i) i);
  }

  dat : DevData
  dat = record { ifindex = j; hwaddr = hwaddr; driver = driver }

  leaving_lem : add_device_to_netns_moved_devices s dev i dst src ≡ ok leaving
  unfolding add_device_to_netns_moved_devices leaving started
  leaving_lem = rw (c.src_there, c.held) refl

  left_lem : device_netns_change leaving i (some j) from ≡ ok left
  unfolding device_netns_change left leaving started answered
  left_lem =
      rw
        (
          name_kept s leaving from refl refl,
          c.src_name,
          moved_from_new s.netns_moved_devices dev started src i c.not_moving c.none_from refl refl,
          get-put_self s.device_database src (del c.src_table i),
        )
        refl

  here : Database
  here = add_device_to_database (arrive left dev j dst) j dev dst

  dst_table_left : get left.device_database dst ≡ some c.dst_table
  unfolding left leaving
  dst_table_left = ground (
    arith,
    c.dst_there,
    c.apart,
    ==_iff src dst,
    get-put (put s.device_database src (del c.src_table i)) src dst (del (del c.src_table i) i),
    get-put s.device_database src dst (del c.src_table i),
  )

  moved_left : moved_to left.netns_moved_devices dst j ≡ some dev
  unfolding left leaving answered started
  moved_left =
      rw (put_again s.netns_moved_devices dev started answered)
        (moved_to_new s.netns_moved_devices dev answered dst j c.not_moving c.none_to refl refl)

  left_name : get_netns_by_name left to ≡ ok dst
  unfolding left leaving
  left_name = rw (name_kept s left to refl refl) c.dst_name

  find_left : find_device left dat dst ≡ (arrive left dev j dst, dev)
  unfolding find_device dat
  find_left = rw (find_device, moved_left) refl

  new_left : new_device left dat dst ≡ here
  unfolding new_device here dat
  new_left = rw (new_device, find_left) refl

  here_lem : device_created left dat to ≡ ok here
  unfolding device_created dat
  here_lem = rw (left_name, dst_table_left, c.free, new_left) refl

  here-Arrived : Arrived here dev j dst
  unfolding here add_device_to_database arrive left leaving
  here-Arrived = record {
    there = get-add_device (arrive left dev j dst) j dev dst;
    index = ground (arith, nat_beq_iff dev dev);
    namespace = ground (arith, nat_beq_iff dev dev);
    usable = ground (arith, nat_beq_iff dev dev);
    done = ground (
      arith,
      ==_iff dev dev,
      get-del (put (put s.netns_moved_devices dev started) dev answered) dev dev (
          put-IsDistinct (put s.netns_moved_devices dev started) dev answered
            (put-IsDistinct s.netns_moved_devices dev started c.moves_distinct) dev),
    );
  }

  src_table_here : get (table_of here src) i ≡ none
  unfolding here add_device_to_database arrive left leaving
  src_table_here = ground (
    arith,
    c.apart,
    ==_iff dst src,
    ==_iff i i,
    get-put left.device_database dst src (put (table_of (arrive left dev j dst) dst) j dev),
    get-put_self (put s.device_database src (del c.src_table i)) src (del (del c.src_table i) i),
    get-del (del c.src_table i) i i (del-IsDistinct c.src_table i c.src_distinct i),
  )

  -- A device that leaves a namespace, where the agent of that namespace reports the move before the
  -- agent of the other reports the device: it is the object that it was, at its new index of its new
  -- namespace, usable again, no longer on its way, and gone from its old index.
  pub moved_device-Arrived :
      (t : Database) × ((add_device_to_netns_moved_devices s dev i dst src >>= λ s1.
      device_netns_change s1 i (some j) from >>= λ s2.
      device_created s2 (record { ifindex = j; hwaddr = hwaddr; driver = driver }) to)
        ≡ ok t)
      × Arrived t dev j dst
      × (get (table_of t src) i ≡ none)
  unfolding dat
  moved_device-Arrived =
      (here, rw (leaving_lem, left_lem, here_lem) refl, here-Arrived, src_table_here)

  met : Database
  met = add_device_to_database (discover leaving dat dst) j s.next_object dst

  crossed : Database
  crossed = record met {
    netns_moved_devices = put met.netns_moved_devices dev answered;
    device_database = put met.device_database src (del (del c.src_table i) i);
  }

  dst_table_leaving : get leaving.device_database dst ≡ some c.dst_table
  unfolding leaving
  dst_table_leaving = ground (
    arith,
    c.dst_there,
    c.apart,
    ==_iff src dst,
    get-put s.device_database src dst (del c.src_table i),
  )

  no_move_yet :
      (d : Dict ℕ Move) → moved_to d dst j ≡ none → moved_to (put d dev started) dst j ≡ none
  unfolding moved_to put started
  no_move_yet [] h = ground arith
  no_move_yet ((k, m) ∷ d) h = ground (arith, no_move_yet d)

  find_leaving :
      tmp_match leaving.objects s.tmp_device_database dat ≡ none
      → find_device leaving dat dst ≡ (discover leaving dat dst, s.next_object)
  unfolding find_device leaving dat
  find_leaving h = rw (find_device, no_move_yet s.netns_moved_devices c.none_to, h) refl

  met_lem :
      tmp_match leaving.objects s.tmp_device_database dat ≡ none
      → device_created leaving dat to ≡ ok met
  unfolding device_created new_device met dat leaving
  met_lem h =
      rw (name_kept s leaving to refl refl, c.dst_name, dst_table_leaving, c.free, find_leaving h)
        refl

  src_table_met : get met.device_database src ≡ some (del c.src_table i)
  unfolding met add_device_to_database discover leaving
  src_table_met = ground (
    arith,
    c.apart,
    ==_iff dst src,
    get-put (put s.device_database src (del c.src_table i)) dst src
        (put (table_of (discover leaving dat dst) dst) j s.next_object),
    get-put_self s.device_database src (del c.src_table i),
  )

  crossed_lem : device_netns_change met i (some j) from ≡ ok crossed
  unfolding device_netns_change crossed answered met add_device_to_database discover leaving started
  crossed_lem = rw (met_name, c.src_name, met_moves, src_table_met) refl
    where
      met_name : get_netns_by_name met from ≡ get_netns_by_name s from
      met_name = name_kept s met from refl refl

      met_moves : moved_from met.netns_moved_devices src i ≡ some (dev, started)
      met_moves =
          moved_from_new s.netns_moved_devices dev started src i c.not_moving c.none_from refl refl

  crossed_facts :
      s.next_object ≢ dev
      → (get (table_of crossed dst) j ≡ some s.next_object)
        × (get crossed.netns_moved_devices dev ≡ some answered)
        × ((crossed.objects dev).cached ≡ true)
  unfolding crossed met add_device_to_database discover leaving
  crossed_facts other = (
    ground (
      arith,
      c.apart,
      ==_iff src dst,
      get-put met.device_database src dst (del (del c.src_table i) i),
      get-add_device (discover leaving dat dst) j s.next_object dst,
    ),
    get-put_self (put s.netns_moved_devices dev started) dev answered,
    ground (arith, nat_beq_iff dev s.next_object, nat_beq_iff dev dev, other),
  )

  -- Where the agent of the other namespace reports the device before the first reports the move,
  -- and no temporary device fits: the index holds a new object, and the device that moved stays on
  -- its way and read-only.
  pub moved_device_stranded :
      tmp_match
          (update s.objects dev (record (s.objects dev) { cached = true }))
          s.tmp_device_database
          (record { ifindex = j; hwaddr = hwaddr; driver = driver })
        ≡ none
      → s.next_object ≢ dev
      → (t : Database) × ((add_device_to_netns_moved_devices s dev i dst src >>= λ s1.
            device_created s1 (record { ifindex = j; hwaddr = hwaddr; driver = driver }) to
            >>= λ s2. device_netns_change s2 i (some j) from)
          ≡ ok t)
        × (get (table_of t dst) j ≡ some s.next_object)
        × (get t.netns_moved_devices dev
            ≡ some (record { src = src; dst = dst; old_ifindex = i; new_ifindex = some j }))
        × ((t.objects dev).cached ≡ true)
  unfolding dat leaving started answered
  moved_device_stranded none_fits other =
      let f = crossed_facts other in
      (crossed, rw (leaving_lem, met_lem none_fits, crossed_lem) refl, f.0, f.1, f.2)
