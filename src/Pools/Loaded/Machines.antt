-- ===== src/Pools/Loaded/Machines.antt =====
-- A machine's data, once they are processed.
use lnst.Prelude.{
  String, ◌≡◌, refl, subst, Option, none, some, List, [], ◌∷◌, Bool, true, false, not, ◌||◌, ◌&&◌,
  arith, ◌==◌, ==_iff, string_eq, Bool-cases, Option-cases, inl, inr, count,
}
use lnst.Prelude.Dict.{
  Dict, get, has, put, del, keys, IsDistinct, get-put, put-IsDistinct, get_of_has,
}
use lnst.Prelude.Exc.{
  Error, Result, ok, guard, or_raise, ◌>>◌, >>=-eq-ok, key_error, pool_manager_error,
}
use lnst.Mapper.Defs.{Iface, Host}
use lnst.Pools.{
  IfaceXml, MachineXml, Spec, Pool, process_iface_xml_data, add_iface_params, hwaddr_dup,
  add_interface, add_interfaces, require_hostname, add_params, or_empty, process_machine_xml_data,
  without_domain, add_file, check_listed,
}

-- A guard that does not raise.
pub guard_holds :
    (b : Bool) {A : Type 0} (rest : Result A) {a : A}
    → (guard b pool_manager_error >> rest) ≡ ok a
    → (b ≡ true) × (rest ≡ ok a)
guard_holds true rest h = (refl, h)
guard_holds false rest h = absurd (cc)

pub or_raise_ok : {A : Type 0} (o : Option A) (e : Error) {a : A} → or_raise o e ≡ ok a → o ≡ some a
or_raise_ok none e h = absurd (cc)
or_raise_ok (some x) e h = cc

-- The interfaces have a MAC address each, and no two share one.
pub record IfsOk (ifs : Dict String Iface) : Type 0 where
  pub distinct : IsDistinct ifs
  pub hwaddrs :
      (k : String) (p : Iface)
      → get ifs k ≡ some p
      → (v : String) × (get p.params "hwaddr" ≡ some v)
  pub apart :
      (k j : String) (p q : Iface)
      → get ifs k ≡ some p
      → get ifs j ≡ some q
      → get p.params "hwaddr" ≡ get q.params "hwaddr"
      → k ≡ j

no_ifs-IfsOk : IfsOk []
unfolding get keys count
no_ifs-IfsOk = record {
  distinct = λ k. omega arith;
  hwaddrs = λ k p h. absurd (cc);
  apart = λ k j p q h i e. absurd (cc);
}

process_iface_xml_data_lem :
    (iface : IfaceXml) {p : Iface}
    → process_iface_xml_data iface ≡ ok p
    → (v : String) × (get p.params "hwaddr" ≡ some v)
unfolding process_iface_xml_data
process_iface_xml_data_lem iface {p = p} h =
    let q = >>=-eq-ok (or_raise iface.params key_error) _ {end = p} h in
    let g = guard_holds (has (add_iface_params [] q.0) "hwaddr") _ {a = p} q.2 in
    let v = get_of_has (add_iface_params [] q.0) "hwaddr" g.0 in (v.0, ground (arith, g.1, v.1))

hwaddr_dup_lem :
    (x : String) (ifs : Dict String Iface) (b : Bool) (k : String) (p : Iface)
    → hwaddr_dup x ifs ≡ ok b
    → get ifs k ≡ some p
    → get p.params "hwaddr" ≡ some x
    → b ≡ true
unfolding hwaddr_dup get
hwaddr_dup_lem x [] b k p h there same = absurd (cc)
hwaddr_dup_lem x ((j, v) ∷ ifs) b k p h there same =
    let a = >>=-eq-ok (or_raise (get v.params "hwaddr") key_error) _ {end = b} h in
    let c = >>=-eq-ok (hwaddr_dup x ifs) (λ b. ok (a.0 == x || b)) {end = b} a.2 in
    let raised = or_raise_ok (get v.params "hwaddr") key_error {a = a.0} a.1 in
    elim (Bool-cases (j == k)) [
      | inl here ↦ ground (arith, rw here at there, raised, same, ==_iff a.0 x, c.2)
      | inr away ↦ ground (arith, hwaddr_dup_lem x ifs c.0 k p c.1 (rw away at there) same, c.2)
    ]

put-IfsOk :
    (ifs : Dict String Iface) (id mac : String) (p : Iface)
    → IfsOk ifs
    → get p.params "hwaddr" ≡ some mac
    → ((k : String) (q : Iface) → get ifs k ≡ some q → get q.params "hwaddr" ≡ some mac → ⊥)
    → IfsOk (put ifs id p)
put-IfsOk ifs id mac p o m new = record {
  distinct = put-IsDistinct ifs id p o.distinct;
  hwaddrs = λ k q h. elim (Bool-cases (id == k)) [
    | inl same ↦ (mac, ground (arith, rw (get-put ifs id k p, same) at h, m))
    | inr other ↦ o.hwaddrs k q (rw (get-put ifs id k p, other) at h)
  ];
  apart = λ k j q r h i e. elim (Bool-cases (id == k)) [
    | inl k_new ↦ elim (Bool-cases (id == j)) [
      | inl j_new ↦ cc ((==_iff id k).0 k_new, (==_iff id j).0 j_new)
      | inr j_old ↦ absurd (
          new j r (rw (get-put ifs id j p, j_old) at i)
            (cc (m, e, rw (get-put ifs id k p, k_new) at h)))
    ]
    | inr k_old ↦ elim (Bool-cases (id == j)) [
      | inl j_new ↦ absurd (
          new k q (rw (get-put ifs id k p, k_old) at h)
            (cc (m, e, rw (get-put ifs id j p, j_new) at i)))
      | inr j_old ↦
          o.apart k j q r (rw (get-put ifs id k p, k_old) at h)
            (rw (get-put ifs id j p, j_old) at i) e
    ]
  ];
}

add_interface-IfsOk :
    (ifs next : Dict String Iface) (iface : IfaceXml)
    → IfsOk ifs
    → add_interface ifs iface ≡ ok next
    → IfsOk next
unfolding add_interface
add_interface-IfsOk ifs next iface o h =
    let s = >>=-eq-ok (process_iface_xml_data iface) _ {end = next} h in
    let a =
      >>=-eq-ok
        (guard (not (has ifs iface.id)) pool_manager_error
          >> or_raise (get s.0.params "hwaddr") key_error)
        _ {end = next} s.2 in
    let g = guard_holds (not (has ifs iface.id)) _ {a = a.0} a.1 in
    let mac = or_raise_ok (get s.0.params "hwaddr") key_error {a = a.0} g.1 in
    let d = >>=-eq-ok (hwaddr_dup a.0 ifs) _ {end = next} a.2 in
    let n = guard_holds (not d.0) (ok (put ifs iface.id s.0)) {a = next} d.2 in
    subst (λ o. IfsOk o) {x = put ifs iface.id s.0} (ground (arith, n.1))
      (put-IfsOk ifs iface.id a.0 s.0 o mac
        (λ k p there same. cc (hwaddr_dup_lem a.0 ifs d.0 k p d.1 there same, n.0)))

add_interfaces-IfsOk :
    (ifs end : Dict String Iface) (more : List IfaceXml)
    → IfsOk ifs
    → add_interfaces ifs more ≡ ok end
    → IfsOk end
unfolding add_interfaces
add_interfaces-IfsOk ifs end [] o h = subst (λ o. IfsOk o) (ground (arith, h)) o
add_interfaces-IfsOk ifs end (iface ∷ more) o h =
    let s = >>=-eq-ok (add_interface ifs iface) _ {end = end} h in
    add_interfaces-IfsOk s.0 end more (add_interface-IfsOk ifs s.0 iface o s.1) s.2

-- A machine has a host name, and its interfaces are in order.
pub record SpecOk (h : Host) : Type 0 where
  pub hostname : (v : String) × (get h.params "hostname" ≡ some v)
  pub ifs : IfsOk h.interfaces

required :
    (params : Dict String String) (xml : MachineXml) {v : Unit {0}}
    → require_hostname params xml ≡ ok v
    → has params "hostname" ≡ true
unfolding require_hostname
required params xml h = elim (Bool-cases (has params "hostname")) [
  | inl there ↦ there
  | inr missing ↦ elim (Option-cases xml.params) [
    | inl nothing ↦ absurd (cc (rw (missing, nothing) at h))
    | inr (ps, some_ps) ↦ absurd (cc (rw (missing, some_ps) at h))
  ]
]

process_machine_xml_data-SpecOk :
    (xml : MachineXml) {m : Spec} → process_machine_xml_data xml ≡ ok m → SpecOk m.host
unfolding process_machine_xml_data
process_machine_xml_data-SpecOk xml {m = m} h =
    let params = add_params [] (or_empty xml.params) in
    let i =
      >>=-eq-ok (require_hostname params xml >> add_interfaces [] (or_empty xml.interfaces)) _
        {end = m} h in
    let r = >>=-eq-ok (require_hostname params xml) _ {end = i.0} i.1 in
    let v = get_of_has params "hostname" (required params xml r.1) in
    subst (λ (o : Spec). SpecOk o.host)
      {x = record {
        host = record { interfaces = i.0; params = params };
        security = xml.security;
        available = none;
      }}
      {y = m} (ground (arith, i.2))
      (record {
        hostname = v;
        ifs = add_interfaces-IfsOk [] i.0 (or_empty xml.interfaces) no_ifs-IfsOk r.2;
      })

del_other :
    (d : Dict String String) (v : String)
    → get d "hostname" ≡ some v
    → get (del d "libvirt_domain") "hostname" ≡ some v
unfolding get del
del_other [] v h = h
del_other ((k, w) ∷ d) v h = elim (Bool-cases (k == "libvirt_domain")) [
  | inl here ↦ rw here (rw ((==_iff k "libvirt_domain").0 here) at h)
  | inr away ↦ rw away (elim (Bool-cases (k == "hostname")) [
    | inl found ↦ rw found (rw found at h)
    | inr other ↦ rw other (del_other d v (rw other at h))
  ])
]

without_domain-SpecOk : (m : Spec) → SpecOk m.host → SpecOk (without_domain m).host
without_domain-SpecOk m o = record {
  hostname = (o.hostname.0, del_other m.host.params o.hostname.0 o.hostname.1);
  ifs = o.ifs;
}

-- add_file gives a machine in order, and one that the pool's are checked against.
pub add_file_lem :
    (allow_virt : Bool) (pool : Pool) (parsed : Result MachineXml) {m : Spec}
    → add_file allow_virt pool parsed ≡ ok m
    → SpecOk m.host × (check_listed m.host.params pool ≡ ok tt)
unfolding add_file
add_file_lem allow_virt pool parsed {m = m} h =
    let x = >>=-eq-ok parsed _ {end = m} h in
    let r = >>=-eq-ok (process_machine_xml_data x.0) _ {end = m} x.2 in
    let o = process_machine_xml_data-SpecOk x.0 {m = r.0} r.1 in
    elim (Bool-cases (has r.0.host.params "libvirt_domain" && not allow_virt)) [
      | inl removed ↦
          let c =
            >>=-eq-ok (check_listed (without_domain r.0).host.params pool) _ {end = m}
              (rw removed at r.2) in
          subst (λ (n : Spec). SpecOk n.host × (check_listed n.host.params pool ≡ ok tt))
            {x = without_domain r.0} {y = m} (ground (arith, c.2))
            (without_domain-SpecOk r.0 o, c.1)
      | inr kept ↦
          let c = >>=-eq-ok (check_listed r.0.host.params pool) _ {end = m} (rw kept at r.2) in
          subst (λ (n : Spec). SpecOk n.host × (check_listed n.host.params pool ≡ ok tt)) {x = r.0}
            {y = m} (ground (arith, c.2)) (o, c.1)
    ]
