-- ===== src/Pools/Loaded/Checks.antt =====
-- A pool, after the unavailable machines are dropped.
use lnst.Prelude.{
  String, ◌≡◌, refl, subst, Option, some, [], ◌∷◌, true, arith, ◌==◌, string_eq, Bool-cases, inl,
  inr, count, ◌≤◌, if◌then◌else◌,
}
use lnst.Prelude.Dict.{get, keys, IsDistinct, get-eq-none_of_count}
use lnst.Prelude.Exc.{ok, or_raise, >>=-eq-ok, key_error}
use lnst.Mapper.Defs.{Host}
use lnst.Pools.{
  Spec, Pool, Answer, accepted, invalid_port, unreachable, refused, is_up, query, assume_available,
  drop_unavailable,
}
use lnst.Pools.Loaded.Machines.{SpecOk, or_raise_ok}
use lnst.Pools.Loaded.Listed.{PoolFits}

-- The machines of a pool are machines of another, but for what is noted of their availability.
record IsPart (part pool : Pool) : Type 0 where
  distinct : IsDistinct part
  from :
      (k : String) (m : Spec)
      → get part k ≡ some m
      → (n : Spec) × (get pool k ≡ some n) × (n.host ≡ m.host)

IsPart-PoolFits : (part pool : Pool) → IsPart part pool → PoolFits pool → PoolFits part
IsPart-PoolFits part pool s o = record {
  distinct = s.distinct;
  specs = λ k m h. let a = s.from k m h in subst (λ (g : Host). SpecOk g) a.2 (o.specs k a.0 a.1);
  apart = λ k j m n h i e.
      let a = s.from k m h in
      let b = s.from j n i in o.apart k j a.0 b.0 a.1 b.1 (cc (a.2, b.2, e));
  domains = λ k j m n v h i e f.
      let a = s.from k m h in
      let b = s.from j n i in o.domains k j a.0 b.0 v a.1 b.1 (cc (a.2, e)) (cc (b.2, f));
}

-- A machine that is available was found so.
abbrev pub IsUp : (String → Option String → Answer) → Spec → Type 0
IsUp connect m =
    (v : String) × (get m.host.params "hostname" ≡ some v)
    × (connect v (get m.host.params "rpc_port") ≡ accepted)

is_up_lem : (a : Answer) → is_up a ≡ ok true → a ≡ accepted
is_up_lem invalid_port h = absurd (cc)
is_up_lem unreachable h = absurd (cc)
is_up_lem refused h = absurd (cc)
is_up_lem accepted h = refl

same_list : {p q : Pool} → ok p ≡ ok q → p ≡ q
same_list h = cc

query_keys :
    (connect : String → Option String → Answer) (pool end : Pool) (k : String)
    → query connect pool ≡ ok end
    → count k (keys end) ≡ count k (keys pool)
unfolding query keys count
query_keys connect [] end k h = ground (arith, h)
query_keys connect ((j, n) ∷ pool) end k h =
    let v = >>=-eq-ok (or_raise (get n.host.params "hostname") key_error) _ {end = end} h in
    let u = >>=-eq-ok (is_up (connect v.0 (get n.host.params "rpc_port"))) _ {end = end} v.2 in
    let r =
      >>=-eq-ok (query connect pool) (λ rest. ok ((j, record n { available = some u.0 }) ∷ rest))
        {end = end} u.2 in
    subst (λ o. count k (keys o) ≡ count k (keys ((j, n) ∷ pool)))
      {x = (j, record n { available = some u.0 }) ∷ r.0} (cc r.2)
      (ground (arith, query_keys connect pool r.0 k r.1))

query_lem :
    (connect : String → Option String → Answer) (pool end : Pool) (k : String) (m : Spec)
    → query connect pool ≡ ok end
    → get end k ≡ some m
    → (n : Spec) × (get pool k ≡ some n)
      × (n.host ≡ m.host)
      × (m.available ≡ some true → IsUp connect m)
unfolding query get
query_lem connect [] end k m h there = absurd (cc (rw (← same_list h) at there))
query_lem connect ((j, n) ∷ pool) end k m h there =
    let v = >>=-eq-ok (or_raise (get n.host.params "hostname") key_error) _ {end = end} h in
    let u = >>=-eq-ok (is_up (connect v.0 (get n.host.params "rpc_port"))) _ {end = end} v.2 in
    let r =
      >>=-eq-ok (query connect pool) (λ rest. ok ((j, record n { available = some u.0 }) ∷ rest))
        {end = end} u.2 in
    let there' = rw (← same_list r.2) at there in
    elim (Bool-cases (j == k)) [
      | inl here ↦
          let found =
            subst (λ (o : Spec). (n.host ≡ o.host) × (o.available ≡ some true → IsUp connect o))
              {x = record n { available = some u.0 }} {y = m} (cc (rw here at there'))
              (
                refl,
                λ up. (
                  v.0,
                  or_raise_ok (get n.host.params "hostname") key_error {a = v.0} v.1,
                  is_up_lem (connect v.0 (get n.host.params "rpc_port")) (cc (u.1, up)),
                ),
              ) in
          (n, rw here refl, found.0, found.1)
      | inr away ↦
          let a = query_lem connect pool r.0 k m r.1 (rw away at there') in
          (a.0, rw away a.1, a.2, a.3)
    ]

assume_available_keys :
    (pool : Pool) (k : String) → count k (keys (assume_available pool)) ≡ count k (keys pool)
unfolding assume_available keys count
assume_available_keys [] k = refl
assume_available_keys ((j, n) ∷ pool) k = ground (arith, assume_available_keys pool k)

assume_available_lem :
    (pool : Pool) (k : String) (m : Spec)
    → get (assume_available pool) k ≡ some m
    → (n : Spec) × (get pool k ≡ some n) × (n.host ≡ m.host)
unfolding assume_available get
assume_available_lem [] k m there = absurd (cc)
assume_available_lem ((j, n) ∷ pool) k m there = elim (Bool-cases (j == k)) [
  | inl here ↦ (
    n,
    rw here refl,
    subst (λ (o : Spec). n.host ≡ o.host) {x = record n { available = some true }} {y = m}
        (cc (rw here at there)) refl,
  )
  | inr away ↦ let a = assume_available_lem pool k m (rw away at there) in (a.0, rw away a.1, a.2)
]

drop_unavailable_keys :
    (pool end : Pool) (k : String)
    → drop_unavailable pool ≡ ok end
    → count k (keys end) ≤ count k (keys pool)
unfolding drop_unavailable keys count
drop_unavailable_keys [] end k h = ground (arith, h)
drop_unavailable_keys ((j, n) ∷ pool) end k h =
    let u = >>=-eq-ok (or_raise n.available key_error) _ {end = end} h in
    let r =
      >>=-eq-ok (drop_unavailable pool) (λ rest. ok (if u.0 then (j, n) ∷ rest else rest))
        {end = end} u.2 in
    let rest = drop_unavailable_keys pool r.0 k r.1 in
    rw (← same_list r.2) (elim (Bool-cases u.0) [
      | inl up ↦ rw up (ground (arith, rest))
      | inr down ↦ rw down (ground (arith, rest))
    ])

drop_unavailable_lem :
    (pool end : Pool) (k : String) (m : Spec)
    → IsDistinct pool
    → drop_unavailable pool ≡ ok end
    → get end k ≡ some m
    → (get pool k ≡ some m) × (m.available ≡ some true)
unfolding drop_unavailable get keys count
drop_unavailable_lem [] end k m d h there = absurd (cc (rw (← same_list h) at there))
drop_unavailable_lem ((j, n) ∷ pool) end k m d h there =
    let u = >>=-eq-ok (or_raise n.available key_error) _ {end = end} h in
    let r =
      >>=-eq-ok (drop_unavailable pool) (λ rest. ok (if u.0 then (j, n) ∷ rest else rest))
        {end = end} u.2 in
    let there' = rw (← same_list r.2) at there in
    let below = drop_unavailable_lem pool r.0 k m (λ i. ground (arith, d i)) r.1 in
    elim (Bool-cases (j == k)) [
      | inl here ↦ elim (Bool-cases u.0) [
        | inl up ↦ (
          rw here (rw (up, here) at there'),
          ground
              (arith, rw (up, here) at there', or_raise_ok n.available key_error {a = u.0} u.1, up),
        )
        | inr down ↦ absurd (
            cc (
              rw down at there',
              get-eq-none_of_count r.0 k
                  (ground (arith, drop_unavailable_keys pool r.0 k r.1, d k, here)),
            ))
      ]
      | inr away ↦ elim (Bool-cases u.0) [
        | inl up ↦ rw away (below (rw (up, away) at there'))
        | inr down ↦ rw away (below (rw down at there'))
      ]
    ]

-- The machines that are kept of the ones that were asked.
pub asked_lem :
    (connect : String → Option String → Answer) (pool p end : Pool)
    → PoolFits pool
    → query connect pool ≡ ok p
    → drop_unavailable p ≡ ok end
    → PoolFits end × ((k : String) (m : Spec) → get end k ≡ some m → IsUp connect m)
asked_lem connect pool p end o h i =
    let s : IsPart end pool = record {
      distinct = λ k.
          ground
            (arith, query_keys connect pool p k h, o.distinct k, drop_unavailable_keys p end k i);
      from = λ k m there.
          let d =
            drop_unavailable_lem p end k m
              (λ j. ground (arith, query_keys connect pool p j h, o.distinct j)) i there in
          let q = query_lem connect pool p k m h d.0 in (q.0, q.1, q.2);
    } in
    (
      IsPart-PoolFits end pool s o,
      λ k m there.
          let d =
            drop_unavailable_lem p end k m
              (λ j. ground (arith, query_keys connect pool p j h, o.distinct j)) i there in
          let q = query_lem connect pool p k m h d.0 in q.3 d.1,
    )

pub assumed_lem :
    (pool end : Pool)
    → PoolFits pool
    → drop_unavailable (assume_available pool) ≡ ok end
    → PoolFits end
assumed_lem pool end o i =
    IsPart-PoolFits end pool
      (record {
        distinct = λ k. ground (
          arith,
          assume_available_keys pool k,
          o.distinct k,
          drop_unavailable_keys (assume_available pool) end k i,
        );
        from = λ k m there.
            assume_available_lem pool k m
              (drop_unavailable_lem (assume_available pool) end k m
                (λ j. ground (arith, assume_available_keys pool j, o.distinct j)) i there).0;
      })
      o
