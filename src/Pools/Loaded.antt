-- ===== src/Pools/Loaded.antt =====
-- The pools that AgentPoolManager() has: they are what the mapper wants of its pools.
mod Machines
mod Listed
mod Checks
use lnst.Prelude.{
  String, ◌≡◌, ◌≢◌, refl, subst, Option, none, some, List, [], ◌∷◌, Bool, true, false, arith, ◌==◌,
  string_eq, Bool-cases, Option-cases, inl, inr, count, ◌≤◌, if◌then◌else◌,
}
use lnst.Prelude.Dict.{Dict, get, put, keys, IsDistinct, get-put}
use lnst.Prelude.Exc.{Result, ok, ◌>>=◌, >>=-eq-ok}
use lnst.Mapper.Defs.{Iface, Host, Hosts}
use lnst.Mapper.Valid.{IsNamed}
use lnst.Pools.{
  Spec, Pool, Site, add_files, query, assume_available, drop_unavailable, add_dir, add_pools,
}
use lnst.Pools.Loaded.Listed.{PoolFits, add_files-PoolFits, no_machines-PoolFits}
use lnst.Pools.Loaded.Checks.{IsUp, asked_lem, assumed_lem}

-- What the mapper reads of a pool.
unfoldable pub hosts : Pool → Hosts
hosts [] = []
hosts ((k, m) ∷ pool) = (k, m.host) ∷ hosts pool

get-hosts :
    (pool : Pool) (k : String) (h : Host)
    → get (hosts pool) k ≡ some h
    → (m : Spec) × (get pool k ≡ some m) × (m.host ≡ h)
unfolding hosts get
get-hosts [] k h there = absurd (cc)
get-hosts ((j, m) ∷ pool) k h there = elim (Bool-cases (j == k)) [
  | inl here ↦ (m, rw here refl, cc (rw here at there))
  | inr away ↦ let r = get-hosts pool k h (rw away at there) in (r.0, rw away r.1, r.2)
]

keys-hosts : (pool : Pool) → keys (hosts pool) ≡ keys pool
unfolding hosts keys
keys-hosts [] = refl
keys-hosts ((j, m) ∷ pool) = cc (keys-hosts pool)

-- A pool with machines: each has a host name and interfaces with MAC addresses, which are its own;
-- no two share a name or libvirt domain; and where pools are checked, each was reached.
pub record IsLoaded (site : Site) (pool : Pool) : Type 0 where
  pub some_machine : pool ≢ []
  pub fits : PoolFits pool
  pub named : IsNamed (hosts pool)
  pub distinct : IsDistinct (hosts pool)
  pub ifs_distinct : (k : String) (h : Host) → get (hosts pool) k ≡ some h → IsDistinct h.interfaces
  pub up :
      site.pool_checks ≡ true → (k : String) (m : Spec) → get pool k ≡ some m → IsUp site.connect m

-- A pool of one directory
abbrev Passed : Site → Pool → Type 0
Passed site pool =
    PoolFits pool
    × (site.pool_checks ≡ true
        → (k : String) (m : Spec) → get pool k ≡ some m
        → IsUp site.connect m)

Passed-IsLoaded : (site : Site) (pool : Pool) → pool ≢ [] → Passed site pool → IsLoaded site pool
Passed-IsLoaded site pool any o = record {
  some_machine = any;
  fits = o.0;
  named = record {
    hostname = λ k h there.
        let m = get-hosts pool k h there in
        subst (λ (g : Host). (v : String) × (get g.params "hostname" ≡ some v)) m.2
          ((o.0).specs k m.0 m.1).hostname;
    hwaddrs = λ k h there.
        let m = get-hosts pool k h there in
        subst
          (λ (g : Host).
            (j : String) (p : Iface)
            → get g.interfaces j ≡ some p
            → (v : String) × (get p.params "hwaddr" ≡ some v))
          m.2 (((o.0).specs k m.0 m.1).ifs).hwaddrs;
  };
  distinct = rw keys-hosts (o.0).distinct;
  ifs_distinct = λ k h there.
      let m = get-hosts pool k h there in
      subst (λ (g : Host). IsDistinct g.interfaces) m.2 (((o.0).specs k m.0 m.1).ifs).distinct;
  up = o.1;
}

add_dir-Passed :
    (site : Site) (dir : String) (end : Pool) → add_dir site [] dir ≡ ok end → Passed site end
unfolding add_dir get
add_dir-Passed site dir end h = elim (Option-cases (site.listdir dir)) [
  | inl nothing ↦
      subst (λ (p : Pool). Passed site p) {x = []} {y = end} (cc (rw (nothing, add_dir) at h))
        (no_machines-PoolFits, λ c k m there. absurd (cc there))
  | inr (dentries, listed) ↦
      let a =
        >>=-eq-ok (add_files site.allow_virt [] dentries) _ {end = end}
          (rw (listed, add_dir) at h) in
      let fits = add_files-PoolFits site.allow_virt [] a.0 dentries no_machines-PoolFits a.1 in
      elim (Bool-cases site.pool_checks) [
        | inl checks ↦
            let q = >>=-eq-ok (query site.connect a.0) _ {end = end} (rw checks at a.2) in
            let k = asked_lem site.connect a.0 q.0 end fits q.1 q.2 in (k.0, λ c. k.1)
        | inr trusts ↦ (assumed_lem a.0 end fits (rw trusts at a.2), λ c. absurd (cc (c, trusts)))
      ]
]

kept :
    (site : Site) (pools : Dict String Pool) (pool_name name : String) (p : Pool)
    → ((q : Pool) → get pools name ≡ some q → IsLoaded site q)
    → Passed site p
    → (q : Pool) → get (elim p [ [] ↦ pools | m ∷ ms ↦ put pools pool_name (m ∷ ms) ]) name ≡ some q
    → IsLoaded site q
kept site pools pool_name name [] before o q there = before q there
kept site pools pool_name name (m ∷ ms) before o q there = elim (Bool-cases (pool_name == name)) [
  | inl same ↦
      subst (λ (r : Pool). IsLoaded site r) {x = m ∷ ms} {y = q}
        (cc (rw (get-put pools pool_name name (m ∷ ms), same) at there))
        (Passed-IsLoaded site (m ∷ ms) (λ e. cc e) o)
  | inr differs ↦ before q (rw (get-put pools pool_name name (m ∷ ms), differs) at there)
]

add_pools_lem :
    (more : List (String × String)) (site : Site) (pools end : Dict String Pool) (name : String)
    (pool : Pool)
    → ((p : Pool) → get pools name ≡ some p → IsLoaded site p)
    → add_pools site pools more ≡ ok end
    → get end name ≡ some pool
    → IsLoaded site pool
unfolding add_pools
add_pools_lem [] site pools end name pool before h there = before pool (ground (arith, h, there))
add_pools_lem ((pool_name, dir) ∷ more) site pools end name pool before h there =
    let p =
      >>=-eq-ok (add_dir site [] dir)
        (λ p. add_pools site (elim p [ [] ↦ pools | m ∷ ms ↦ put pools pool_name (m ∷ ms) ]) more)
        {end = end} h in
    add_pools_lem more site _ end name pool
      (kept site pools pool_name name p.0 before (add_dir-Passed site dir p.0 p.1)) p.2 there

-- A pool that AgentPoolManager() holds, once it has read the directories without an exception, is
-- not empty; its machines have distinct names, host names and libvirt domains, and each was reached
-- if that is checked; their interfaces have MAC addresses, distinct within a machine. It is what
-- the mapper wants of a pool.
pub add_pools-IsLoaded :
    (site : Site) (end : Dict String Pool) (more : List (String × String)) (name : String)
    (pool : Pool)
    → add_pools site [] more ≡ ok end
    → get end name ≡ some pool
    → IsLoaded site pool
unfolding get
add_pools-IsLoaded site end more name pool h there =
    add_pools_lem more site [] end name pool (λ p none_there. absurd (cc none_there)) h there
