-- ===== src/Mapper/Faults.antt =====
-- A behaviour of MachineMapper.py that its callers have to know of.
use lnst.Prelude.{
  ℕ, suc, ◌<◌, String, ◌≡◌, refl, ap, ◌∙◌, true, false, some, none, List, [], ◌∷◌, arith, string_eq,
  count, ◌==◌, ==_iff, ==_self, Bool-cases, inl, inr,
}
use lnst.Prelude.Exc.{ok, err, index_error}
use lnst.Prelude.Dict.{get, keys}
use lnst.Mapper.Defs.{Iface, Host, Hosts, MachineMatch, Mapper, remove, remove_total, sorted_top}
use lnst.Mapper.Compat.{params_fit, check_machine_compatibility}
use lnst.Mapper.IfSearch.{if_match, if_loop, if_step, push_if_stack}
use lnst.Mapper.Search.{
  push_machine_stack, next_machine, settle_machine, retry_machine, match_step, match_loop,
  release_virtual,
}

-- A machine that fits is found, where the pool has all that are listed.
next_machine_total :
    (mreqs pool : Hosts) (m p : String) (host : Host) (ps : List String)
    → get mreqs m ≡ some host
    → ((q : String) → 0 < count q ps → (h : Host) × (get pool q ≡ some h))
    → 0 < count p ps
    → check_machine_compatibility mreqs pool m p ≡ ok true
    → (q : String) × (rest : List String) × (next_machine mreqs pool m ps ≡ ok (some q, rest))
      × (0 < count q ps)
unfolding next_machine check_machine_compatibility count
next_machine_total mreqs pool m p host [] there all listed fits = absurd (omega (arith, listed))
next_machine_total mreqs pool m p host (x ∷ xs) there all listed fits =
    let h = all x (ground (arith, ==_self x)) in
    elim (Bool-cases (params_fit host.params h.0.params)) [
      | inl good ↦ (
        x,
        xs,
        rw (next_machine, check_machine_compatibility, there, h.1, good) refl,
        ground (arith, ==_self x),
      )
      | inr bad ↦ elim (Bool-cases (x == p)) [
        | inl same ↦
            absurd
              (cc (bad, (==_iff x p).0 same, rw (check_machine_compatibility, there) at fits, h.1))
        | inr other ↦
            let r =
              next_machine_total mreqs pool m p host xs there (λ q c. all q (ground (arith, c)))
                (rw other at listed) fits in
            (
              r.0,
              r.1,
              rw (next_machine, check_machine_compatibility, there, h.1, bad) r.2,
              ground (arith, r.3),
            )
      ]
    ]

-- The frame that is pushed for a requirement without interfaces.
abbrev bare : String → List String → MachineMatch
bare m ps = record {
  m_id = m;
  current_match = none;
  remaining_matches = ps;
  if_stack = [];
  unmatched_ifs = [];
  unmatched_pool_ifs = [];
  virt_matched = false;
}

bare_released :
    (s : Mapper) (m : String) (ps : List String)
    → s.virtual_matching ≡ false
    → release_virtual s (bare m ps) ≡ (s, bare m ps)
unfolding release_virtual
bare_released s m ps not_virtual = rw (release_virtual, not_virtual) refl

bare-if_match :
    (s : Mapper) (m : String) (ps : List String) (fuel : ℕ)
    → s.virtual_matching ≡ false
    → if_match
        (suc fuel)
        s.virtual_matching
        s.mreqs
        s.pool
        (record { top = bare m ps; labels = s.net_label_mapping })
      ≡ some (ok (false, record { top = bare m ps; labels = s.net_label_mapping }))
unfolding if_match if_loop if_step
bare-if_match s m ps fuel not_virtual = rw (if_match, not_virtual) refl

bare_settled :
    (s : Mapper) (m q : String) (pool_m : Host) (ps rest free : List String)
    (below : List MachineMatch)
    → s.virtual_matching ≡ false
    → get s.pool q ≡ some pool_m
    → remove s.unmatched_pool_machines q ≡ some free
    → settle_machine s (bare m ps) below (some q, rest) ≡ err index_error
unfolding settle_machine push_if_stack
bare_settled s m q pool_m ps rest free below not_virtual found took =
    ground (arith, not_virtual, found, took)

bare_retried :
    (s : Mapper) (m q : String) (pool_m : Host) (ps rest free : List String)
    (below : List MachineMatch)
    → s.virtual_matching ≡ false
    → get s.pool q ≡ some pool_m
    → remove s.unmatched_pool_machines q ≡ some free
    → next_machine s.mreqs s.pool m ps ≡ ok (some q, rest)
    → retry_machine s (bare m ps) below ≡ err index_error
unfolding retry_machine
bare_retried s m q pool_m ps rest free below not_virtual found took next =
    rw (retry_machine, next) (bare_settled s m q pool_m ps rest free below not_virtual found took)

bare_round :
    (s : Mapper) (m q : String) (pool_m : Host) (ps rest free : List String)
    (below : List MachineMatch) (fuel : ℕ)
    → s.virtual_matching ≡ false
    → s.machine_stack ≡ bare m ps ∷ below
    → get s.pool q ≡ some pool_m
    → remove s.unmatched_pool_machines q ≡ some free
    → next_machine s.mreqs s.pool m ps ≡ ok (some q, rest)
    → match_step (suc fuel) s ≡ some (err index_error)
unfolding match_step
bare_round s m q pool_m ps rest free below fuel not_virtual top found took next =
    rw (match_step, top, bare_released s m ps not_virtual, bare-if_match s m ps fuel not_virtual)
      (ap
          (λ (pr : Mapper × MachineMatch). some (
            retry_machine
              (record pr.0 {
                machine_stack = bare m ps ∷ below;
                net_label_mapping = s.net_label_mapping;
              })
              (bare m ps) below))
          (bare_released s m ps not_virtual)
        ∙ ap some (
            bare_retried (record s { machine_stack = bare m ps ∷ below }) m q pool_m ps rest free
              below not_virtual found took next))

no_keys : sorted_top (keys {K = String} {V = Iface} []) ≡ []
unfolding keys sorted_top
no_keys = refl

-- A host requirement without interfaces, where it is the next one, virtual machines are not asked
-- for, and the pool has all the free machines, one of them compatible: once the requirement is
-- pushed, `_match` raises IndexError, in its first round.
pub no_interface_raises :
    (s : Mapper) (m p : String) (reqs : List String) (host : Host) (if_fuel fuel : ℕ)
    → s.virtual_matching ≡ false
    → s.unmatched_req_machines ≡ m ∷ reqs
    → get s.mreqs m ≡ some host
    → host.interfaces ≡ []
    → ((q : String) → 0 < count q s.unmatched_pool_machines → (h : Host) × (get s.pool q ≡ some h))
    → 0 < count p s.unmatched_pool_machines
    → check_machine_compatibility s.mreqs s.pool m p ≡ ok true
    → (t : Mapper) × (push_machine_stack s ≡ ok t)
      × (match_loop (suc if_fuel) (suc fuel) t ≡ some (err index_error))
unfolding push_machine_stack match_loop
no_interface_raises s m p reqs host if_fuel fuel not_virtual next there no_ifs all listed fits =
    let n =
      next_machine_total s.mreqs s.pool m p host s.unmatched_pool_machines there all listed fits in
    let found = all n.0 n.3 in
    let took = remove_total n.0 s.unmatched_pool_machines n.3 in
    let frame = bare m s.unmatched_pool_machines in
    (
      record s { unmatched_req_machines = reqs; machine_stack = frame ∷ s.machine_stack },
      rw (push_machine_stack, next, there, no_ifs, no_keys) refl,
      rw
          (
            match_loop,
            bare_round
                (record s {
                  unmatched_req_machines = reqs;
                  machine_stack = frame ∷ s.machine_stack;
                })
                m n.0 found.0 s.unmatched_pool_machines n.1 took.0 s.machine_stack if_fuel
                not_virtual refl found.1 took.1 n.2,
          )
          refl,
    )
