-- ===== src/Pools/Loaded/Listed.antt =====
-- A pool, while its directory is read.
use lnst.Prelude.{
  String, ◌≡◌, refl, subst, Option, none, some, List, [], ◌∷◌, Bool, true, false, not, arith, ◌==◌,
  ==_iff, string_eq, Bool-cases, inl, inr, count,
}
use lnst.Prelude.Dict.{Dict, get, put, keys, IsDistinct, get-put, put-IsDistinct}
use lnst.Prelude.Exc.{ok, guard, or_raise, ◌>>◌, >>=-eq-ok, key_error, pool_manager_error}
use lnst.Pools.{
  Spec, Pool, check_listed, same_domain, add_file, Dirent, machine_file, other, add_files,
}
use lnst.Pools.Loaded.Machines.{SpecOk, add_file_lem, guard_holds, or_raise_ok}

-- The machines are in order, and no two share a host name or a libvirt domain.
pub record PoolFits (pool : Pool) : Type 0 where
  pub distinct : IsDistinct pool
  pub specs : (k : String) (m : Spec) → get pool k ≡ some m → SpecOk m.host
  pub apart :
      (k j : String) (m n : Spec)
      → get pool k ≡ some m
      → get pool j ≡ some n
      → get m.host.params "hostname" ≡ get n.host.params "hostname"
      → k ≡ j
  pub domains :
      (k j : String) (m n : Spec) (v : String)
      → get pool k ≡ some m
      → get pool j ≡ some n
      → get m.host.params "libvirt_domain" ≡ some v
      → get n.host.params "libvirt_domain" ≡ some v
      → k ≡ j

passed_guard : (b : Bool) {u : Unit {0}} → guard b pool_manager_error ≡ ok u → b ≡ true
passed_guard true h = refl
passed_guard false h = absurd (cc)

-- The machine is told from those of a pool.
record IsNew (rm : Dict String String) (m : Spec) : Type 0 where
  hostname : get rm "hostname" ≡ get m.host.params "hostname" → ⊥
  domain :
      (v : String)
      → get rm "libvirt_domain" ≡ some v
      → get m.host.params "libvirt_domain" ≡ some v
      → ⊥

not_same_domain :
    (r p : Option String) (v : String) → same_domain r p ≡ false → r ≡ some v → p ≡ some v → ⊥
not_same_domain none p v h e f = cc
not_same_domain (some r) none v h e f = cc
not_same_domain (some r) (some p) v h e f = ground (arith, ==_iff p r, h, e, f)

check_listed_lem :
    (rm : Dict String String) (pool : Pool) {u : Unit {0}} (k : String) (m : Spec)
    → check_listed rm pool ≡ ok u
    → get pool k ≡ some m
    → IsNew rm m
unfolding check_listed get
check_listed_lem rm [] k m h there = absurd (cc)
check_listed_lem rm ((j, n) ∷ pool) {u = u} k m h there =
    let p = >>=-eq-ok (or_raise (get n.host.params "hostname") key_error) _ {end = u} h in
    let r = >>=-eq-ok (or_raise (get rm "hostname") key_error) _ {end = u} p.2 in
    let g =
      >>=-eq-ok
        (guard (not (p.0 == r.0)) pool_manager_error
          >> guard
              (not (same_domain (get rm "libvirt_domain") (get n.host.params "libvirt_domain")))
              pool_manager_error)
        _ {end = u} r.2 in
    let a = guard_holds (not (p.0 == r.0)) _ {a = g.0} g.1 in
    let b =
      passed_guard
        (not (same_domain (get rm "libvirt_domain") (get n.host.params "libvirt_domain"))) {u = g.0}
        a.1 in
    elim (Bool-cases (j == k)) [
      | inl here ↦
          subst (λ o. IsNew rm o) {x = n} (cc (rw here at there))
            (record {
              hostname = λ e. ground (
                arith,
                a.0,
                ==_iff p.0 r.0,
                e,
                or_raise_ok (get n.host.params "hostname") key_error {a = p.0} p.1,
                or_raise_ok (get rm "hostname") key_error {a = r.0} r.1,
              );
              domain = λ v e f.
                  not_same_domain (get rm "libvirt_domain") (get n.host.params "libvirt_domain") v
                    (ground (arith, b)) e f;
            })
      | inr away ↦ check_listed_lem rm pool {u = u} k m g.2 (rw away at there)
    ]

put-PoolFits :
    (pool : Pool) (m_id : String) (r : Spec)
    → PoolFits pool
    → SpecOk r.host
    → ((k : String) (m : Spec) → get pool k ≡ some m → IsNew r.host.params m)
    → PoolFits (put pool m_id r)
put-PoolFits pool m_id r o good new = record {
  distinct = put-IsDistinct pool m_id r o.distinct;
  specs = λ k m h. elim (Bool-cases (m_id == k)) [
    | inl same ↦
        subst (λ (n : Spec). SpecOk n.host) {x = r} {y = m}
          (cc (rw (get-put pool m_id k r, same) at h)) good
    | inr differs ↦ o.specs k m (rw (get-put pool m_id k r, differs) at h)
  ];
  apart = λ k j m n h i e. elim (Bool-cases (m_id == k)) [
    | inl k_new ↦ elim (Bool-cases (m_id == j)) [
      | inl j_new ↦ cc ((==_iff m_id k).0 k_new, (==_iff m_id j).0 j_new)
      | inr j_old ↦ absurd (
          (new j n (rw (get-put pool m_id j r, j_old) at i)).hostname
            (cc (e, rw (get-put pool m_id k r, k_new) at h)))
    ]
    | inr k_old ↦ elim (Bool-cases (m_id == j)) [
      | inl j_new ↦ absurd (
          (new k m (rw (get-put pool m_id k r, k_old) at h)).hostname
            (cc (e, rw (get-put pool m_id j r, j_new) at i)))
      | inr j_old ↦
          o.apart k j m n (rw (get-put pool m_id k r, k_old) at h)
            (rw (get-put pool m_id j r, j_old) at i) e
    ]
  ];
  domains = λ k j m n v h i e f. elim (Bool-cases (m_id == k)) [
    | inl k_new ↦ elim (Bool-cases (m_id == j)) [
      | inl j_new ↦ cc ((==_iff m_id k).0 k_new, (==_iff m_id j).0 j_new)
      | inr j_old ↦ absurd (
          (new j n (rw (get-put pool m_id j r, j_old) at i)).domain v
            (cc (e, rw (get-put pool m_id k r, k_new) at h)) f)
    ]
    | inr k_old ↦ elim (Bool-cases (m_id == j)) [
      | inl j_new ↦ absurd (
          (new k m (rw (get-put pool m_id k r, k_old) at h)).domain v
            (cc (f, rw (get-put pool m_id j r, j_new) at i)) e)
      | inr j_old ↦
          o.domains k j m n v (rw (get-put pool m_id k r, k_old) at h)
            (rw (get-put pool m_id j r, j_old) at i) e f
    ]
  ];
}

pub add_files-PoolFits :
    (allow_virt : Bool) (pool end : Pool) (dentries : List Dirent)
    → PoolFits pool
    → add_files allow_virt pool dentries ≡ ok end
    → PoolFits end
unfolding add_files
add_files-PoolFits allow_virt pool end [] o h = subst (λ p. PoolFits p) (ground (arith, h)) o
add_files-PoolFits allow_virt pool end (other ∷ dentries) o h =
    add_files-PoolFits allow_virt pool end dentries o h
add_files-PoolFits allow_virt pool end (machine_file m_id parsed ∷ dentries) o h =
    let r = >>=-eq-ok (add_file allow_virt pool parsed) _ {end = end} h in
    let l = add_file_lem allow_virt pool parsed {m = r.0} r.1 in
    add_files-PoolFits allow_virt (put pool m_id r.0) end dentries
      (put-PoolFits pool m_id r.0 o l.0
        (λ k m there. check_listed_lem r.0.host.params pool {u = tt} k m l.1 there))
      r.2

pub no_machines-PoolFits : PoolFits []
unfolding get keys count
no_machines-PoolFits = record {
  distinct = λ k. omega arith;
  specs = λ k m h. absurd (cc);
  apart = λ k j m n h i e. absurd (cc);
  domains = λ k j m n v h i e f. absurd (cc);
}
