-- ===== src/Database/Replay.antt =====
-- The machine's database, after what the agent told of its devices: it has the devices that the
-- agent's table has.
use lnst.Prelude.{
  ℕ, String, ◌≡◌, refl, subst, Option, none, some, List, [], ◌∷◌, true, false, arith, ◌==◌, ==_iff,
  if◌then◌else◌, nat_eq, string_eq, Bool-cases, Option-cases, inl, inr, count,
}
use lnst.Prelude.Dict.{
  Dict, keys, get, has, put, del, IsDistinct, put-IsDistinct, del-IsDistinct, get-put, get-del,
  get-put_self,
}
use lnst.Prelude.Exc.{Result, ok, ◌>>=◌, >>=-eq-ok}
use lnst.Interfaces.{Notice, dev_created, dev_deleted, dev_netns_changed, Manager}
use lnst.Interfaces.Mirrored.{told, Consistent}
use lnst.Database.{
  Database, DevData, find_device, table_of, get_netns_by_name, add_device_to_database, arrive,
  settle, discover, new_device, device_created, device_delete, device_netns_change, moved_from,
}

-- The message of a notice, for the namespace that it comes from; a notice leaves out the driver.
unfoldable pub deliver : (ℕ → String) → Option String → Database → Notice → Result Database
deliver drivers netns s (dev_created i name hwaddr) =
    device_created s (record { ifindex = i; hwaddr = hwaddr; driver = drivers i }) netns
deliver drivers netns s (dev_deleted i) = device_delete s i netns
deliver drivers netns s (dev_netns_changed i j) = device_netns_change s i j netns

-- The notices in the order in which they were sent; the list has the last first.
unfoldable pub deliver_all : (ℕ → String) → Option String → Database → List Notice → Result Database
deliver_all drivers netns s [] = ok s
deliver_all drivers netns s (n ∷ sent) =
    deliver_all drivers netns s sent >>= λ t. deliver drivers netns t n

-- The namespace has a table, with the devices that the notices leave.
pub record Mirrors (s : Database) (netns : Option String) (ns : ℕ) (sent : List Notice)
    : Type 0 where
  pub name : get_netns_by_name s netns ≡ ok ns
  pub table : Dict ℕ ℕ
  pub there : get s.device_database ns ≡ some table
  pub distinct : IsDistinct table
  pub same : (i : ℕ) → has table i ≡ told sent i

empty_table : IsDistinct {K = ℕ} {V = ℕ} []
unfolding count keys
empty_table k = omega arith

get-has : (d : Dict ℕ ℕ) (i : ℕ) → get d i ≡ none → has d i ≡ false
unfolding has
get-has d i h = ground arith

table_of_lem :
    (s : Database) (ns : ℕ) {table : Dict ℕ ℕ}
    → get s.device_database ns ≡ some table
    → table_of s ns ≡ table
table_of_lem s ns h = ground arith

-- A change of the one table, and of nothing that names namespaces.
table_changed :
    (s t : Database) (netns : Option String) (ns : ℕ) (table : Dict ℕ ℕ) (sent : List Notice)
    → get_netns_by_name s netns ≡ ok ns
    → (t.initns ≡ s.initns)
      × (t.namespaces ≡ s.namespaces)
      × (t.device_database ≡ put s.device_database ns table)
    → IsDistinct table
    → ((i : ℕ) → has table i ≡ told sent i)
    → Mirrors t netns ns sent
unfolding get_netns_by_name
table_changed s t none ns table sent e k d h = record {
  name = cc (e, k.0);
  table = table;
  there = rw (k.2) (get-put_self s.device_database ns table);
  distinct = d;
  same = h;
}
table_changed s t (some name) ns table sent e k d h = record {
  name = rw (k.1) e;
  table = table;
  there = rw (k.2) (get-put_self s.device_database ns table);
  distinct = d;
  same = h;
}

has-put : (d : Dict ℕ ℕ) (k j v : ℕ) → has (put d k v) j ≡ (if k == j then true else has d j)
unfolding has
has-put d k j v = ground (arith, get-put d k j v)

has-del :
    (d : Dict ℕ ℕ) (k j : ℕ) → IsDistinct d → has (del d k) j ≡ (if k == j then false else has d j)
unfolding has
has-del d k j h = ground (arith, get-del d k j (h k))

find_device_keeps :
    (s : Database) (dat : DevData) (ns : ℕ)
    → ((find_device s dat ns).0.initns ≡ s.initns)
      × ((find_device s dat ns).0.namespaces ≡ s.namespaces)
      × ((find_device s dat ns).0.device_database ≡ s.device_database)
unfolding find_device arrive settle discover
find_device_keeps s dat ns = (ground arith, ground arith, ground arith)

-- The three ways to a new device all add the index to the table.
new_device-Mirrors :
    (s : Database) (dat : DevData) (netns : Option String) (ns : ℕ) (name hwaddr : Option String)
    (sent : List Notice)
    → Mirrors s netns ns sent
    → Mirrors (new_device s dat ns) netns ns (dev_created dat.ifindex name hwaddr ∷ sent)
unfolding new_device add_device_to_database
new_device-Mirrors s dat netns ns name hwaddr sent m =
    let found = find_device s dat ns in
    let k = find_device_keeps s dat ns in
    table_changed s (new_device s dat ns) netns ns (put m.table dat.ifindex found.1)
      (dev_created dat.ifindex name hwaddr ∷ sent) m.name
      (k.0, k.1, rw (k.2, table_of_lem found.0 ns {table = m.table} (rw (k.2) m.there)) refl)
      (put-IsDistinct m.table dat.ifindex found.1 m.distinct)
      (λ i. ground (arith, has-put m.table dat.ifindex i found.1, m.same i, ==_iff dat.ifindex i))

ok_injective : {A : Type 0} {x y : A} → ok x ≡ ok y → x ≡ y
ok_injective e = cc

deliver-Mirrors :
    (drivers : ℕ → String) (netns : Option String) (ns : ℕ) (s t : Database) (n : Notice)
    (sent : List Notice)
    → Mirrors s netns ns sent
    → deliver drivers netns s n ≡ ok t
    → Mirrors t netns ns (n ∷ sent)
unfolding deliver device_created device_delete device_netns_change
deliver-Mirrors drivers netns ns s t (dev_created i name hwaddr) sent m e =
    elim (Bool-cases (has m.table i)) [
      | inl known ↦
          subst (λ (o : Database). Mirrors o netns ns (dev_created i name hwaddr ∷ sent)) {x = s}
            (ok_injective (rw (m.name, m.there, known) at e))
            (record {
              name = m.name;
              table = m.table;
              there = m.there;
              distinct = m.distinct;
              same = λ j. ground (arith, m.same j, ==_iff i j, known);
            })
      | inr fresh ↦
          subst (λ (o : Database). Mirrors o netns ns (dev_created i name hwaddr ∷ sent))
            {x = new_device s (record { ifindex = i; hwaddr = hwaddr; driver = drivers i }) ns}
            (ok_injective (rw (m.name, m.there, fresh) at e))
            (new_device-Mirrors s (record { ifindex = i; hwaddr = hwaddr; driver = drivers i })
              netns ns name hwaddr sent m)
    ]
deliver-Mirrors drivers netns ns s t (dev_deleted i) sent m e =
    elim (Option-cases (get m.table i)) [
      | inl absent ↦
          subst (λ (o : Database). Mirrors o netns ns (dev_deleted i ∷ sent)) {x = s}
            (ok_injective (rw (m.name, m.there, absent) at e))
            (record {
              name = m.name;
              table = m.table;
              there = m.there;
              distinct = m.distinct;
              same = λ j. ground (arith, m.same j, ==_iff i j, absent, get-has m.table i);
            })
      | inr (dev, there) ↦
          table_changed s t netns ns (del m.table i) (dev_deleted i ∷ sent) m.name
            (let f = ok_injective (rw (m.name, m.there, there) at e) in (cc f, cc f, cc f))
            (del-IsDistinct m.table i m.distinct)
            (λ j. ground (arith, has-del m.table i j m.distinct, m.same j, ==_iff i j))
    ]
deliver-Mirrors drivers netns ns s t (dev_netns_changed i j) sent m e =
    elim (Option-cases (moved_from s.netns_moved_devices ns i)) [
      | inl no_move ↦ absurd (cc (rw (m.name, no_move) at e))
      | inr (found, moving) ↦
          table_changed s t netns ns (del m.table i) (dev_netns_changed i j ∷ sent) m.name
            (let f = ok_injective (rw (m.name, moving, m.there) at e) in (cc f, cc f, cc f))
            (del-IsDistinct m.table i m.distinct)
            (λ k. ground (arith, has-del m.table i k m.distinct, m.same k, ==_iff i k))
    ]

deliver_all-Mirrors :
    (drivers : ℕ → String) (netns : Option String) (ns : ℕ) (s t : Database) (sent : List Notice)
    → Mirrors s netns ns []
    → deliver_all drivers netns s sent ≡ ok t
    → Mirrors t netns ns sent
unfolding deliver_all
deliver_all-Mirrors drivers netns ns s t [] m e =
    subst (λ (o : Database). Mirrors o netns ns []) {x = s} (ok_injective e) m
deliver_all-Mirrors drivers netns ns s t (n ∷ sent) m e =
    let r =
      >>=-eq-ok (deliver_all drivers netns s sent) (λ u. deliver drivers netns u n) {end = t} e in
    deliver-Mirrors drivers netns ns r.0 t n sent
      (deliver_all-Mirrors drivers netns ns s r.0 sent m r.1) r.2

-- An agent's interface manager in a consistent state, and a machine whose table for the agent's
-- namespace was empty at the start: once the machine has processed all that the manager sent, in
-- its order and without an exception, its table has exactly the devices of the manager's.
pub replay-mirrored :
    (drivers : ℕ → String) (netns : Option String) (ns : ℕ) (s t : Database) (m : Manager)
    → Consistent m
    → get_netns_by_name s netns ≡ ok ns
    → get s.device_database ns ≡ some []
    → deliver_all drivers netns s m.sent ≡ ok t
    → (i : ℕ) → has (table_of t ns) i ≡ has m.devices i
unfolding has get
replay-mirrored drivers netns ns s t m c name there e i =
    let start : Mirrors s netns ns [] = record {
      name = name;
      table = [];
      there = there;
      distinct = empty_table;
      same = λ j. refl;
    } in
    let r = deliver_all-Mirrors drivers netns ns s t m.sent start e in
    ground (arith, r.there, r.same i, c.mirrored i)
