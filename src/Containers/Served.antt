-- ===== src/Containers/Served.antt =====
-- ContainerMapper: every interface of a match is on the network that was asked for.
use lnst.Prelude.{
  String, ◌≡◌, refl, subst, some, List, [], ◌∷◌, ◌==◌, ==_iff, string_eq, Bool-cases, inl, inr, ◌⊎◌,
  Option-cases, arith,
}
use lnst.Prelude.Dict.{Dict, get}
use lnst.Prelude.Exc.{Error, Result, ok, err}
use lnst.Mapper.Defs.{Iface, Host, Hosts}
use lnst.Mapper.Mapping.{IfMap, MachineMap, Mapping}
use lnst.Containers.{map_machine_interface, map_container_ifs, map_containers, container_matches}

-- The entry is an interface of the machine.
abbrev pub Among : String → Iface → Dict String Iface → Type 0
Among k i [] = ⊥
Among k i ((j, e) ∷ rest) = ((j ≡ k) × (e ≡ i)) ⊎ Among k i rest

-- The interfaces of the match, for those that are asked for, in their order.
abbrev pub IfsServed :
    (String → String) → Dict String Iface → Dict String Iface → Dict String IfMap → Type 0
IfsServed name interfaces [] [] = Unit
IfsServed name interfaces [] (t ∷ ts) = ⊥
IfsServed name interfaces (r ∷ rs) [] = ⊥
IfsServed name interfaces ((inf_id, req) ∷ rs) ((id, t) ∷ ts) =
    ((id ≡ inf_id)
      × (i : Iface) × Among t.target i interfaces
      × (i.network ≡ name req.network)
      × (get i.params "hwaddr" ≡ some t.hwaddr))
    × IfsServed name interfaces rs ts

Result-cases : {A : Type 0} (r : Result A) → ((a : A) × (r ≡ ok a)) ⊎ ((e : Error) × (r ≡ err e))
Result-cases (ok a) = inl (a, refl)
Result-cases (err e) = inr (e, refl)

found_lem :
    (name : String) (interfaces : Dict String Iface) {k : String} {i : Iface}
    → map_machine_interface name interfaces ≡ some (k, i)
    → Among k i interfaces × (i.network ≡ name)
unfolding map_machine_interface
found_lem name [] h = absurd (cc)
found_lem name ((j, e) ∷ rest) {k = k} {i = i} h = elim (Bool-cases (e.network == name)) [
  | inl on ↦ (
    inl (ground (arith, on, h), ground (arith, on, h)),
    ground (arith, on, h, ==_iff e.network name),
  )
  | inr off ↦ let r = found_lem name rest {k = k} {i = i} (ground (arith, off, h)) in (inr r.0, r.1)
]

map_container_ifs_lem :
    (name : String → String) (interfaces reqs : Dict String Iface) {ts : Dict String IfMap}
    → map_container_ifs name interfaces reqs ≡ ok ts
    → IfsServed name interfaces reqs ts
unfolding map_container_ifs
map_container_ifs_lem name interfaces [] {ts = []} h = tt
map_container_ifs_lem name interfaces [] {ts = t ∷ ts} h = absurd (cc)
map_container_ifs_lem name interfaces ((inf_id, req) ∷ reqs) {ts = ts} h =
    elim (Option-cases (map_machine_interface (name req.network) interfaces)) [
      | inl none_on ↦ absurd (ground (arith, none_on, h))
      | inr (found, on) ↦ elim (Option-cases (get found.1.params "hwaddr")) [
        | inl bare ↦ absurd (ground (arith, on, bare, h))
        | inr (mac, has_mac) ↦ elim (Result-cases (map_container_ifs name interfaces reqs)) [
          | inr (e, failed) ↦ absurd (ground (arith, on, has_mac, failed, h))
          | inl (rest, went) ↦
              let f = found_lem (name req.network) interfaces {k = found.0} {i = found.1} on in
              subst (λ (o : Dict String IfMap). IfsServed name interfaces ((inf_id, req) ∷ reqs) o)
                {x = (inf_id, record { target = found.0; hwaddr = mac }) ∷ rest}
                (ground (arith, on, has_mac, went, h))
                (
                  (refl, found.1, f.0, f.1, has_mac),
                  map_container_ifs_lem name interfaces reqs {ts = rest} went,
                )
        ]
      ]
    ]

-- The machines of the match, for those that are asked for, in their order.
abbrev pub Served : (String → String) → Hosts → Hosts → Dict String MachineMap → Type 0
Served name pool [] [] = Unit
Served name pool [] (t ∷ ts) = ⊥
Served name pool (r ∷ rs) [] = ⊥
Served name pool ((m_id, req) ∷ rs) ((id, t) ∷ ts) =
    ((id ≡ m_id)
      × (t.target ≡ m_id)
      × (c : Host) × (get pool m_id ≡ some c)
      × (get c.params "hostname" ≡ some t.hostname)
      × IfsServed name c.interfaces req.interfaces t.interfaces)
    × Served name pool rs ts

map_containers_lem :
    (name : String → String) (pool mreqs : Hosts) {ts : Dict String MachineMap}
    → map_containers name pool mreqs ≡ ok ts
    → Served name pool mreqs ts
unfolding map_containers
map_containers_lem name pool [] {ts = []} h = tt
map_containers_lem name pool [] {ts = t ∷ ts} h = absurd (cc)
map_containers_lem name pool ((m_id, req) ∷ mreqs) {ts = ts} h =
    elim (Option-cases (get pool m_id)) [
      | inl missing ↦ absurd (ground (arith, missing, h))
      | inr (c, there) ↦ elim (Option-cases (get c.params "hostname")) [
        | inl bare ↦ absurd (ground (arith, there, bare, h))
        | inr (host, named) ↦
            elim (Result-cases (map_container_ifs name c.interfaces req.interfaces)) [
              | inr (e, failed) ↦ absurd (ground (arith, there, named, failed, h))
              | inl (ifs, mapped) ↦ elim (Result-cases (map_containers name pool mreqs)) [
                | inr (e, failed) ↦ absurd (ground (arith, there, named, mapped, failed, h))
                | inl (rest, went) ↦
                    subst (λ (o : Dict String MachineMap). Served name pool ((m_id, req) ∷ mreqs) o)
                      {x = (m_id, record { target = m_id; hostname = host; interfaces = ifs })
                        ∷ rest}
                      (ground (arith, there, named, mapped, went, h))
                      (
                        (
                          refl,
                          refl,
                          c,
                          there,
                          named,
                          map_container_ifs_lem name c.interfaces req.interfaces {ts = ifs} mapped,
                        ),
                        map_containers_lem name pool mreqs {ts = rest} went,
                      )
              ]
            ]
      ]
    ]

-- A match that ContainerMapper yields maps every machine to the container of its name, with that
-- container's host name, and every interface to one of the container's interfaces on the network
-- that stands for the one asked for, with its hardware address.
pub container_matches-Served :
    (name : String → String) (networks : List String) (pool mreqs : Hosts) (m : Mapping)
    → container_matches name networks pool mreqs ≡ ok m
    → Served name pool mreqs m.machines
unfolding container_matches
container_matches-Served name networks pool mreqs m h =
    elim (Result-cases (map_containers name pool mreqs)) [
      | inr (e, failed) ↦ absurd (ground (arith, failed, h))
      | inl (ts, went) ↦
          subst (λ (o : Dict String MachineMap). Served name pool mreqs o) (ground (arith, went, h))
            (map_containers_lem name pool mreqs {ts = ts} went)
    ]
