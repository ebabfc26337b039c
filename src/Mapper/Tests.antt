-- ===== src/Mapper/Tests.antt =====
-- MachineMapper.py at concrete inputs: runs, and the theorems' instances.
use lnst.Prelude.{
  ℕ, ◌≤◌, ◌<◌, String, ◌≡◌, refl, Bool, true, false, Option, none, some, List, [], ◌∷◌, arith,
  string_eq, count, map, subst, length, Bool-cases, inl, inr, ◌==◌,
}
use lnst.Prelude.Exc.{ok, err, index_error}
use lnst.Prelude.Dict.{get, keys, has, put, del, IsDistinct}
use lnst.Mapper.Defs.{Iface, Host, Hosts, Mapper, new_mapper, sorted_top, remove}
use lnst.Mapper.Compat.{check_machine_compatibility, params_fit, check_interface_compatibility}
use lnst.Mapper.IfSearch.{if_match, if_loop, if_step}
use lnst.Mapper.Search.{
  reset_match_state, match_loop, match_step, push_first, enter_pool, retry_machine,
  next_requirement, next_machine, settle_machine, push_machine_stack,
}
use lnst.Mapper.Mapping.{
  Yielded, matches, get_mapping, search_from, yield_loop, or_no_match, map_machines, map_networks,
}
use lnst.Mapper.IfValid.{sub_cost}
use lnst.Mapper.Valid.{ReqsOk, PoolOk, HasHwaddrs}
use lnst.Mapper.Valid.Reset.{Config, search_cost}
use lnst.Mapper.Sound.{first_match, Found}
use lnst.Mapper.Faults.{no_interface_raises}
use lnst.Mapper.Matches.{matches_total, MatchesOk}

abbrev eth : String → Iface
eth net = record { network = net; params = [] }

abbrev nic : String → String → Iface
nic net mac = record { network = net; params = ("hwaddr", mac) ∷ [] }

-- Two hosts on one network.
abbrev two_hosts : Hosts
two_hosts =
    ("m1", record { interfaces = ("eth0", eth "net1") ∷ []; params = [] })
    ∷ ("m2", record { interfaces = ("eth0", eth "net1") ∷ []; params = ("arch", "arm") ∷ [] })
    ∷ []

-- Only machine `b` is of the architecture that the second host asks for, and only its second
-- interface is on the network of the other machine.
abbrev lab : Hosts
lab =
    ("a", record { interfaces = ("1", nic "A" "00:01") ∷ []; params = ("hostname", "host-a") ∷ [] })
    ∷ (
      "b",
      record {
        interfaces = ("1", nic "B" "00:02") ∷ ("2", nic "A" "00:03") ∷ [];
        params = ("hostname", "host-b") ∷ ("arch", "arm") ∷ [];
      },
    )
    ∷ []

abbrev mapper : Mapper
mapper = record new_mapper { mreqs = two_hosts; pools = ("lab", lab) ∷ [] }

abbrev targets_of : Option Yielded → List (List String)
targets_of none = []
targets_of (some y) = map (λ m. map (λ e. e.1.target) m.machines) y.mappings

-- The search backtracks to the second interface of `b`.
finds : targets_of (matches 50 50 2 false false mapper) ≡ ("a" ∷ "b" ∷ []) ∷ []
unfolding matches search_from yield_loop or_no_match reset_match_state match_loop match_step
    push_first enter_pool retry_machine next_requirement next_machine settle_machine if_match
    if_loop if_step get_mapping map_machines map_networks sorted_top remove get keys has put del
    check_interface_compatibility
finds = refl

-- One host on one network, and one machine for it.
abbrev one_req : Host
one_req = record { interfaces = ("eth0", eth "net1") ∷ []; params = [] }

abbrev one_machine : Host
one_machine = record {
  interfaces = ("1", nic "A" "00:01") ∷ [];
  params = ("hostname", "host-a") ∷ [];
}

abbrev small : Mapper
small = record new_mapper {
  mreqs = ("m1", one_req) ∷ [];
  pools = ("lab", ("a", one_machine) ∷ []) ∷ [];
}

module _ {ℓ} {V : Type ℓ} where
  get_one : (i k : String) (v : V) {w : V} → get ((i, v) ∷ []) k ≡ some w → v ≡ w
  unfolding get
  get_one i k v e = ground arith

  one-IsDistinct : (i : String) (v : V) → IsDistinct ((i, v) ∷ [])
  unfolding count keys
  one-IsDistinct i v k = ground arith

empty-IsDistinct : IsDistinct {K = String} {V = Host} []
unfolding count keys
empty-IsDistinct k = omega arith

no_host : (k : String) {h : Host} → get [] k ≡ some h → ⊥
unfolding get
no_host k e = cc

reqs_ok : ReqsOk small.mreqs
unfolding keys
reqs_ok = record {
  distinct = one-IsDistinct "m1" one_req;
  ifs_distinct = λ k h e.
      subst (λ (x : Host). IsDistinct x.interfaces) (get_one "m1" k one_req e)
        (one-IsDistinct "eth0" (eth "net1"));
  has_ifs = λ k h e.
      subst (λ (x : Host). 0 < length (keys x.interfaces)) (get_one "m1" k one_req e) (omega arith);
}

no_pool : PoolOk small.mreqs 2 1 []
unfolding keys
no_pool = record {
  named = record {
    hostname = λ k h e. absurd (no_host k e);
    hwaddrs = λ k h e. absurd (no_host k e);
  };
  distinct = empty-IsDistinct;
  ifs_distinct = λ k h e. absurd (no_host k e);
  machines = omega arith;
  ifs = λ k j r p e f. absurd (no_host j f);
}

abbrev cost_of : Host → Host → ℕ
cost_of r p = sub_cost (length (keys p.interfaces)) (length (keys r.interfaces))

one_pool : PoolOk small.mreqs 2 1 (("a", one_machine) ∷ [])
unfolding keys sub_cost get
one_pool = record {
  named = record {
    hostname = λ k h e.
        subst (λ (x : Host). (v : String) × (get x.params "hostname" ≡ some v))
          (get_one "a" k one_machine e) ("host-a", refl);
    hwaddrs = λ k h e.
        subst (λ (x : Host). HasHwaddrs x) (get_one "a" k one_machine e)
          (λ j p f.
            subst (λ (x : Iface). (v : String) × (get x.params "hwaddr" ≡ some v))
              (get_one "1" j (nic "A" "00:01") f) ("00:01", refl));
  };
  distinct = one-IsDistinct "a" one_machine;
  ifs_distinct = λ k h e.
      subst (λ (x : Host). IsDistinct x.interfaces) (get_one "a" k one_machine e)
        (one-IsDistinct "1" (nic "A" "00:01"));
  machines = omega arith;
  ifs = λ k j r p e f.
      subst (λ (x : Host). cost_of x p ≤ 2) (get_one "m1" k one_req e)
        (subst (λ (x : Host). cost_of one_req x ≤ 2) (get_one "a" j one_machine f) (omega arith));
}

small-Config : Config 2 1 small
small-Config = record {
  not_virtual = refl;
  reqs_ok = reqs_ok;
  pool_ok = no_pool;
  pools_ok = λ k p e.
      subst (λ (x : Hosts). PoolOk small.mreqs 2 1 x) (get_one "lab" k (("a", one_machine) ∷ []) e)
        one_pool;
}

small_cost : search_cost 2 1 small ≤ 10
unfolding search_cost sub_cost keys
small_cost = omega arith

first_match_example :
    (t : Mapper) × (b : Bool) × (u : Mapper) × (reset_match_state small ≡ ok t)
    × (match_loop 3 10 t ≡ some (ok (b, u)))
    × Found small b u
first_match_example = first_match 2 1 3 10 small small-Config (omega arith) small_cost

matches_total_example :
    (y : Yielded) × (matches 3 10 10 true false small ≡ some y) × MatchesOk small y
matches_total_example =
    matches_total 2 1 3 10 10 true small small-Config (omega arith) small_cost small_cost

-- A machine without interfaces is required, and the pool has a machine.
abbrev bare_search : Mapper
bare_search = record small {
  mreqs = ("m1", record { interfaces = []; params = [] }) ∷ [];
  pool = ("a", one_machine) ∷ [];
  unmatched_req_machines = "m1" ∷ [];
  unmatched_pool_machines = "a" ∷ [];
}

bare_pool :
    (q : String)
    → 0 < count q bare_search.unmatched_pool_machines
    → (h : Host) × (get bare_search.pool q ≡ some h)
unfolding count get
bare_pool q listed = elim (Bool-cases ("a" == q)) [
  | inl same ↦ (one_machine, rw (get, same) refl)
  | inr other ↦ absurd (ground (arith, other, listed))
]

no_interface_raises_example :
    (t : Mapper) × (push_machine_stack bare_search ≡ ok t)
    × (match_loop 1 1 t ≡ some (err index_error))
unfolding get count check_machine_compatibility params_fit
no_interface_raises_example =
    no_interface_raises bare_search "m1" "a" [] (record { interfaces = []; params = [] }) 0 0 refl
      refl refl refl bare_pool (omega arith) refl
