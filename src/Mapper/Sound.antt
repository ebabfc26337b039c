-- ===== src/Mapper/Sound.antt =====
-- What a mapping of MachineMapper.py must be, and that `get_mapping` returns one when `_match` has
-- succeeded.
pub mod Networks
pub mod Ifs
pub mod Machines
use lnst.Prelude.{
  ℕ, suc, ◌+◌, ◌*◌, ◌≤◌, ◌<◌, String, ◌≡◌, refl, Bool, true, false, Option, none, some, List, [],
  ◌∷◌, arith, string_eq, count, subst, sym, ap, ◌∙◌, Bool-cases, inl, inr, ◌==◌, ◌⊎◌,
}
use lnst.Prelude.Exc.{Result, ok, ◌>>=◌}
use lnst.Prelude.Dict.{Dict, get, keys, count_of_get}
use lnst.Mapper.Defs.{Iface, Host, Hosts, Owner, Labels, Mapper}
use lnst.Mapper.Compat.{params_fit}
use lnst.Mapper.Mapping.{IfMap, MachineMap, Mapping, map_networks, map_machines, get_mapping}
use lnst.Mapper.Search.{reset_match_state, match_loop}
use lnst.Mapper.Valid.{FullInv, MatchInv, match_cost, m_ids, m_taken}
use lnst.Mapper.Valid.Pools.{FullInv-MatchInv}
use lnst.Mapper.Valid.Loop.{MatchOk, match_loop_lem}
use lnst.Mapper.Valid.Reset.{Config, search_cost, reset_match_state_lem}
use Networks.{IsInjective}
use Ifs.{IfMapped}
use Machines.{MachineMapped, MachinesMapped, map_machines_lem, MFilled-IsInjective}

-- Required host `h` has a machine with the parameters that it asks for, and each of its interfaces
-- another interface of that machine, likewise, on the network that its label is mapped to.
abbrev pub HostMatch : Hosts → Mapping → String → Host → Type 0
HostMatch pool mp k h =
    (mm : MachineMap) × (pool_m : Host) × (get mp.machines k ≡ some mm)
    × (get pool mm.target ≡ some pool_m)
    × (params_fit h.params pool_m.params ≡ true)
    × ((i : String) (r : Iface)
        → get h.interfaces i ≡ some r
        → (im : IfMap) × (pool_if : Iface) × (get mm.interfaces i ≡ some im)
          × (get pool_m.interfaces im.target ≡ some pool_if)
          × (params_fit r.params pool_if.params ≡ true)
          × (get mp.networks r.network ≡ some pool_if.network))
    × ((i j : String) (im jm : IfMap)
        → get mm.interfaces i ≡ some im
        → get mm.interfaces j ≡ some jm
        → im.target ≡ jm.target
        → i ≡ j)

-- A mapping that satisfies the requirements `mreqs` by the machines of `pool`: every required host
-- has a machine of its own with the parameters that it asks for, every required interface an
-- interface of its own on that machine with the parameters that it asks for, and two interfaces
-- share a required network exactly when they share a pool network.
pub record IsMatch (mreqs pool : Hosts) (mp : Mapping) : Type 0 where
  pub each_host : (k : String) (h : Host) → get mreqs k ≡ some h → HostMatch pool mp k h
  pub own_machine :
      (k l : String) (mm lm : MachineMap)
      → get mp.machines k ≡ some mm
      → get mp.machines l ≡ some lm
      → mm.target ≡ lm.target
      → k ≡ l
  pub own_network :
      (x y n : String) → get mp.networks x ≡ some n → get mp.networks y ≡ some n → x ≡ y

get-map_networks :
    (labels : Labels) (x : String) {o : Owner}
    → get labels x ≡ some o
    → get (map_networks labels) x ≡ some o.pool_label
unfolding map_networks get
get-map_networks [] x e = absurd (cc)
get-map_networks ((l, w) ∷ labels) x {o = o} e = ground (arith, get-map_networks labels x {o = o})

map_networks-get :
    (labels : Labels) (x n : String)
    → get (map_networks labels) x ≡ some n
    → (o : Owner) × (get labels x ≡ some o) × (o.pool_label ≡ n)
unfolding map_networks get
map_networks-get [] x n e = absurd (cc)
map_networks-get ((l, w) ∷ labels) x n e = elim (Bool-cases (l == x)) [
  | inl same ↦ (w, rw same, ground (arith, same, e))
  | inr other ↦ let (o, g, p) = map_networks-get labels x n (rw other at e) in (o, rw other g, p)
]

module _ (o : Mapper) (Q M : ℕ) (t : Mapper) (i : FullInv o Q M t)
    (all_done : t.unmatched_req_machines ≡ []) where
  m_ids_le : (x : String) → count x (m_ids t.machine_stack) ≤ 1
  m_ids_le x = omega (arith, i.common.required x, i.common.reqs_ok.distinct x)

  m_taken_le : (x : String) → count x (m_taken t.machine_stack) ≤ 1
  m_taken_le x = omega (arith, i.common.in_pool x, i.common.pool_ok.distinct x)

  all_hosts : (k : String) (h : Host) → get t.mreqs k ≡ some h → 0 < count k (m_ids t.machine_stack)
  unfolding count
  all_hosts k h e = ground (arith, i.common.required k, all_done, count_of_get t.mreqs k {v = h} e)

  module _ (d : Dict String MachineMap)
      (mm : MachinesMapped t.mreqs t.pool t.machine_stack t.net_label_mapping d) where
    abbrev mapping_of : Mapping
    mapping_of = record {
      machines = d;
      networks = map_networks t.net_label_mapping;
      virtual = t.virtual_matching;
      pool_name = t.pool_name;
    }

    mapping_of-IsMatch : IsMatch t.mreqs t.pool mapping_of
    mapping_of-IsMatch = record {
      each_host = λ k h e. host_of k h e (mm.each k (all_hosts k h e));
      own_machine = mm.distinct;
      own_network = λ x y n e f.
          let (a, ga, pa) = map_networks-get t.net_label_mapping x n e in
          let (b, gb, pb) = map_networks-get t.net_label_mapping y n f in
          MFilled-IsInjective t.mreqs t.pool Q i.common.pool_ok.named t.machine_stack
            t.net_label_mapping i.full x y a b ga gb (pa ∙ sym pb);
    }
      where
        host_of :
            (k : String) (h : Host)
            → get t.mreqs k ≡ some h
            → ((h' : Host) × (m : MachineMap) × (get t.mreqs k ≡ some h')
                × (get d k ≡ some m)
                × MachineMapped t.pool t.net_label_mapping h' m)
            → HostMatch t.pool mapping_of k h
        host_of k h e (h', m, e', g, x) =
            let same : h' ≡ h = cc (e', e) in
            let y : MachineMapped t.pool t.net_label_mapping h m =
              subst (λ q. MachineMapped t.pool t.net_label_mapping q m) same x in
            (
              m,
              y.pool_m,
              g,
              y.is_in_pool,
              y.fits,
              (λ j r er.
                  let (im, gi, z) = y.each_if j r er in
                  (
                    im,
                    z.pool_if,
                    gi,
                    z.is_in_pool,
                    z.fits,
                    get-map_networks t.net_label_mapping r.network z.has_label
                        ∙ ap some z.same_network,
                  )),
              y.distinct_ifs,
            )

  -- After a successful `_match` the mapping can be read, and it is a match.
  pub get_mapping_lem : (mp : Mapping) × (get_mapping t ≡ ok mp) × IsMatch t.mreqs t.pool mp
  unfolding get_mapping
  get_mapping_lem =
      let (d, e, mm) =
        map_machines_lem t.mreqs t.pool Q i.common.pool_ok.named t.machine_stack t.net_label_mapping
          i.full m_ids_le m_taken_le in
      (mapping_of d mm, ground (arith, e), mapping_of-IsMatch d mm)

-- How a search that began with the configuration of `o` ends: in a match for the requirements by
-- the pool that it names, which can be read; or with no machine on the stack.
abbrev pub Found : Mapper → Bool → Mapper → Type 0
Found o true u =
    (mp : Mapping) × (get_mapping u ≡ ok mp)
    × IsMatch o.mreqs u.pool mp
    × ((o.pools ≡ []) ⊎ ((k : String) × (mp.pool_name ≡ some k) × (get o.pools k ≡ some u.pool)))
Found o false u = u.machine_stack ≡ []

pub Found-of :
    (o : Mapper) (Q M : ℕ) (s : Mapper) (b : Bool) (u : Mapper) → MatchOk o Q M s b u → Found o b u
unfolding get_mapping
Found-of o Q M s false u h = h.1
Found-of o Q M s true u (i, all_done, cost) =
    let (mp, e, m) = get_mapping_lem o Q M u i all_done in
    (
      mp,
      e,
      subst (λ (r : Hosts). IsMatch r u.pool mp) i.kept.same_mreqs m,
      named_of mp e i.kept.in_pool,
    )
  where
    named_of :
        (mp : Mapping)
        → get_mapping u ≡ ok mp
        → ((o.pools ≡ []) ⊎ ((k : String) × (u.pool_name ≡ some k) × (get o.pools k ≡ some u.pool)))
        → (o.pools ≡ []) ⊎ ((k : String) × (mp.pool_name ≡ some k) × (get o.pools k ≡ some u.pool))
    named_of mp e (inl h) = inl h
    named_of mp e (inr (k, p, q)) = inr (k, ground (arith, e, p), q)

-- From a well-formed configuration without virtual machines, with fuel for the search,
-- `reset_match_state` and then `_match` raise nothing and return. If `_match` returns True,
-- `get_mapping` returns a match for the requirements by machines of the pool that it names.
pub first_match :
    (Q M if_fuel fuel : ℕ) (s : Mapper)
    → Config Q M s
    → Q < if_fuel
    → search_cost Q M s ≤ fuel
    → (t : Mapper) × (b : Bool) × (u : Mapper) × (reset_match_state s ≡ ok t)
      × (match_loop if_fuel fuel t ≡ some (ok (b, u)))
      × Found s b u
first_match Q M if_fuel fuel s c enough fuel_ok =
    let (t, e, i, cost) = reset_match_state_lem Q M s c in
    let (b, u, f, good) = match_loop_lem s Q M if_fuel enough fuel t i (omega arith) in
    (t, b, u, e, f, Found-of s Q M t b u good)
