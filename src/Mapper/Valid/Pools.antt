-- ===== src/Mapper/Valid/Pools.antt =====
-- Entering a pool: its usable machines become free, and the first requirement is pushed.
use lnst.Prelude.{
  ℕ, suc, ◌+◌, ◌*◌, ◌≤◌, ◌<◌, String, ◌≡◌, refl, ap, sym, subst, ◌∙◌, Bool, false, some, List, [],
  ◌∷◌, inr, arith, string_eq, count, length, length_pos_of_count, All, ==_self,
}
use lnst.Prelude.Exc.{ok}
use lnst.Prelude.Dict.{Dict, get, keys}
use lnst.Mapper.Defs.{
  Host, Hosts, Labels, MachineMatch, Mapper, sorted_top, count-sorted_top, length_le_of_count,
}
use lnst.Mapper.IfValid.Step.{sub_cost_mono}
use lnst.Mapper.Search.{push_first, push_machine_stack, enter_pool, pool_machines, usable_ids}
use lnst.Mapper.Valid.{
  m_ids, m_taken, MFilled, MRemaining, TopInv, Common, MatchInv, FullInv, m_cost, pool_cost,
  match_cost,
}
use lnst.Mapper.Valid.Push.{pushed, push_eq, pushed-MatchInv, pushed_cost}

count-usable_ids :
    (x : String) (pool : Hosts) (ids : List String)
    → count x (usable_ids false pool ids) ≡ count x ids
unfolding usable_ids count
count-usable_ids x pool [] = refl
count-usable_ids x pool (p ∷ ps) = ground (arith, count-usable_ids x pool ps)

-- With no virtual machines wanted, all machines of the pool are free.
pub count-pool_machines :
    (x : String) (virtual : Bool) (pool : Hosts)
    → virtual ≡ false
    → count x (pool_machines virtual pool) ≡ count x (keys pool)
unfolding pool_machines
count-pool_machines x virtual pool e =
    rw e (count-usable_ids x pool (sorted_top (keys pool)) ∙ count-sorted_top x (keys pool))

MFilled-TopInv :
    (mreqs pool : Hosts) (Q : ℕ) (ms : List MachineMatch) (l : Labels)
    → MFilled mreqs pool Q ms l
    → TopInv mreqs pool Q ms l
MFilled-TopInv mreqs pool Q [] l h = h
MFilled-TopInv mreqs pool Q (m ∷ ms) l (c, p, u, f, rest) = inr (c, p, rest)

pub FullInv-MatchInv : (o : Mapper) (Q M : ℕ) (s : Mapper) → FullInv o Q M s → MatchInv o Q M s
FullInv-MatchInv o Q M s i = record {
  kept = i.kept;
  common = i.common;
  top = MFilled-TopInv s.mreqs s.pool Q s.machine_stack s.net_label_mapping i.full;
}

module _ (o : Mapper) (Q M : ℕ) (s : Mapper) (i : FullInv o Q M s)
    (idle : s.machine_stack ≡ []) where
  abbrev pub Entered : Type 0
  Entered =
      (t : Mapper) × (push_first s ≡ ok t)
      × MatchInv o Q M t
      × (match_cost Q M t
          ≤ pool_cost Q M s.mreqs + length s.pool_stack * (1 + pool_cost Q M s.mreqs))

  entered_same : push_first s ≡ ok s → Entered
  unfolding match_cost m_cost
  entered_same e = (s, e, FullInv-MatchInv o Q M s i, rw idle (omega arith))

  empty_cost : (k : ℕ) → m_cost Q M s.pool k s.machine_stack ≡ 0
  unfolding m_cost
  empty_cost k = rw idle

  open_reqs_le : length s.unmatched_req_machines ≤ length (keys s.mreqs)
  open_reqs_le =
      length_le_of_count s.unmatched_req_machines (keys s.mreqs)
        (λ x. omega (arith, i.common.required x))

  entered_push :
      (rs : List String)
      → s.unmatched_req_machines ≡ rs
      → 0 < length rs
      → push_first s ≡ push_machine_stack s
      → Entered
  unfolding match_cost
  entered_push [] e less eq = absurd (omega arith)
  entered_push (r ∷ rs) e less eq = (
    pushed o Q M s i r rs e,
    eq ∙ push_eq o Q M s i r rs e,
    pushed-MatchInv o Q M s i r rs e,
    omega (
      arith,
      pushed_cost o Q M s i r rs e,
      empty_cost (length s.unmatched_req_machines),
      sub_cost_mono (M * (1 + Q)) (suc (length rs)) (length (keys s.mreqs))
          (omega (arith, open_reqs_le, ap (λ (l : List String). length l) e)),
    ),
  )

  open_req :
      (q : String) (h : Host) (qs : Hosts)
      → s.mreqs ≡ (q, h) ∷ qs
      → 0 < length s.unmatched_req_machines
  unfolding keys count m_ids
  open_req q h qs e =
      length_pos_of_count q s.unmatched_req_machines
        (ground (arith, i.common.required q, idle, e, ==_self q))

  entered_on : (ps qs : Hosts) → s.pool ≡ ps → s.mreqs ≡ qs → Entered
  unfolding push_first
  entered_on [] qs e f = entered_same (ground (arith, e))
  entered_on (p ∷ ps) [] e f = entered_same (ground (arith, e, f))
  entered_on (p ∷ ps) ((q, h) ∷ qs) e f =
      entered_push s.unmatched_req_machines refl (open_req q h qs f) (ground (arith, e, f))

  -- With an empty stack, the first requirement is pushed if there is one and a machine for it.
  pub push_first_lem : Entered
  push_first_lem = entered_on s.pool s.mreqs refl refl

module _ (o : Mapper) (Q M : ℕ) (s : Mapper) (common : Common Q M s)
    (kept_mreqs : s.mreqs ≡ o.mreqs) (kept_pools : s.pools ≡ o.pools)
    (no_labels : s.net_label_mapping ≡ []) (idle : s.machine_stack ≡ []) (name : String)
    (rest : List String) (next : s.pool_stack ≡ name ∷ rest) where
  stack_here : (p : Hosts) × (get s.pools name ≡ some p)
  stack_here =
      (subst (λ (l : List String). All (λ k. (p : Hosts) × (get s.pools k ≡ some p)) l) next
        common.stack_ok).0

  abbrev entered : Mapper
  entered = record s {
    pool_stack = rest;
    pool_name = some name;
    pool = stack_here.0;
    unmatched_pool_machines = pool_machines s.virtual_matching stack_here.0;
  }

  entered-FullInv : FullInv o Q M entered
  unfolding m_taken count
  entered-FullInv = record {
    kept = record {
      same_mreqs = kept_mreqs;
      same_pools = kept_pools;
      in_pool = inr (
        name,
        refl,
        subst (λ (d : Dict String Hosts). get d name ≡ some stack_here.0) kept_pools stack_here.1,
      );
    };
    common = record {
      not_virtual = common.not_virtual;
      reqs_ok = common.reqs_ok;
      pool_ok = common.pools_ok name stack_here.0 stack_here.1;
      pools_ok = common.pools_ok;
      stack_ok =
          (subst (λ (l : List String). All (λ k. (p : Hosts) × (get s.pools k ≡ some p)) l) next
            common.stack_ok).1;
      required = common.required;
      in_pool = λ x. rw idle (
          ground (arith, count-pool_machines x s.virtual_matching stack_here.0 common.not_virtual));
      remaining =
          subst (λ (l : List MachineMatch). MRemaining entered.unmatched_pool_machines l) (sym idle)
            tt;
    };
    full =
        subst (λ (l : List MachineMatch). MFilled s.mreqs stack_here.0 Q l s.net_label_mapping)
          (sym idle) no_labels;
  }

  -- The next pool is entered with no exception, for what one pool costs.
  pub enter_pool_lem :
      (t u : Mapper) × (enter_pool s name rest ≡ ok t)
      × (push_first t ≡ ok u)
      × MatchInv o Q M u
      × (match_cost Q M u ≤ pool_cost Q M s.mreqs + length rest * (1 + pool_cost Q M s.mreqs))
  unfolding enter_pool
  enter_pool_lem =
      let (u, e, inv, cost) = push_first_lem o Q M entered entered-FullInv idle in
      (entered, u, ground (arith, stack_here.1), e, inv, cost)
