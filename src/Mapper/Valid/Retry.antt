-- ===== src/Mapper/Valid/Retry.antt =====
-- The branch of `_match` after a failed `_if_match`: the next machine of the pool for the same
-- requirement, or back to the requirement before.
use lnst.Prelude.{
  ℕ, suc, ◌+◌, ◌*◌, ◌≤◌, ◌<◌, String, ◌≡◌, refl, subst, false, Option, none, some, List, [], ◌∷◌,
  inl, inr, arith, string_eq, count, length, ==_self, All,
}
use lnst.Prelude.Exc.{ok}
use lnst.Prelude.Dict.{get, keys}
use lnst.Mapper.Defs.{Host, Hosts, Owner, Labels, MachineMatch, Mapper}
use lnst.Mapper.IfValid.{level_cost}
use lnst.Mapper.IfValid.Release.{owner_or_base}
use lnst.Mapper.Search.{again, settle_machine, next_pool, pop_machine_stack}
use lnst.Mapper.Valid.{
  Kept, ReqsOk, PoolOk, m_ids, m_taken, MFilled, Common, MatchInv, FullInv, MRemaining, m_cost,
  pool_cost, match_cost,
}
use lnst.Mapper.Valid.Pools.{FullInv-MatchInv, enter_pool_lem}

-- The state once the top has given its machine back: `free` are the free machines.
pub record Vacated (o : Mapper) (Q M : ℕ) (s : Mapper) (n : MachineMatch)
    (below : List MachineMatch) (labels : Labels) (free : List String) : Type 0 where
  pub kept : Kept o s
  pub not_virtual : s.virtual_matching ≡ false
  pub reqs_ok : ReqsOk s.mreqs
  pub pool_ok : PoolOk s.mreqs Q M s.pool
  pub pools_ok : (k : String) (p : Hosts) → get s.pools k ≡ some p → PoolOk s.mreqs Q M p
  pub stack_ok : All (λ k. (p : Hosts) × (get s.pools k ≡ some p)) s.pool_stack
  pub required :
      (x : String)
      → count x s.unmatched_req_machines + count x (n.m_id ∷ m_ids below) ≡ count x (keys s.mreqs)
  pub in_pool : (x : String) → count x free + count x (m_taken below) ≡ count x (keys s.pool)
  pub to_try : (x : String) → count x n.remaining_matches ≤ count x free
  pub remaining : MRemaining free below
  pub filled : MFilled s.mreqs s.pool Q below labels
  pub no_ifs : n.if_stack ≡ []
  pub req_m : Host
  pub is_req : get s.mreqs n.m_id ≡ some req_m
  pub ifs : (x : String) → count x n.unmatched_ifs ≡ count x (keys req_m.interfaces)

-- A label is owned by a machine that is on the stack.
pub m_owner_on_stack :
    (mreqs pool : Hosts) (Q : ℕ) (ms : List MachineMatch) (labels : Labels)
    → MFilled mreqs pool Q ms labels
    → (x : String) (o : Owner) → get labels x ≡ some o
    → 0 < count o.m_id (m_ids ms)
unfolding m_ids count get
m_owner_on_stack mreqs pool Q [] labels h x o e = cc (subst (λ (l : Labels). get l x ≡ some o) h e)
m_owner_on_stack mreqs pool Q (m ∷ ms) labels (c, p, u, f, rest) x o e =
    elim (owner_or_base c m.if_stack labels f x o e) [
      | inl same ↦ ground (arith, same, p.inv.at_machine, ==_self o.m_id)
      | inr old ↦ ground (arith, m_owner_on_stack mreqs pool Q ms c.base rest x o old)
    ]

module _ (o : Mapper) (Q M : ℕ) (s : Mapper) (n : MachineMatch) (below : List MachineMatch)
    (labels : Labels) (free : List String) (v : Vacated o Q M s n below labels free) where
  abbrev pub n' : MachineMatch
  n' = record n { current_match = none }

  abbrev pub vac : Mapper
  vac = record s {
    machine_stack = n ∷ below;
    net_label_mapping = labels;
    unmatched_pool_machines = free;
  }

  -- What the frame may still cost, with its machine given up.
  abbrev pub budget : ℕ
  budget =
      level_cost (M * (1 + Q)) (length s.unmatched_req_machines)
        (length n.remaining_matches * (1 + Q))
      + m_cost Q M s.pool (suc (length s.unmatched_req_machines)) below
      + length s.pool_stack * (1 + pool_cost Q M s.mreqs)

  abbrev pub RetryOk : Option String × List String → Type 0
  RetryOk found =
      (t : Mapper) × (settle_machine vac n' below found ≡ ok (again t))
      × MatchInv o Q M t
      × (match_cost Q M t < budget)

  abbrev popped : Mapper
  popped = record vac {
    unmatched_req_machines = n.m_id ∷ s.unmatched_req_machines;
    machine_stack = below;
  }

  popped-Common : Common Q M popped
  unfolding m_ids count
  popped-Common = record {
    not_virtual = v.not_virtual;
    reqs_ok = v.reqs_ok;
    pool_ok = v.pool_ok;
    pools_ok = v.pools_ok;
    stack_ok = v.stack_ok;
    required = λ x. ground (arith, v.required x);
    in_pool = v.in_pool;
    remaining = v.remaining;
  }

  popped_cost : match_cost Q M popped < budget
  unfolding match_cost level_cost
  popped_cost = omega arith

  popped-FullInv : FullInv o Q M popped
  popped-FullInv = record { kept = v.kept; common = popped-Common; full = v.filled }

  abbrev PopOk : Type 0
  PopOk =
      (t : Mapper) × (next_pool popped ≡ ok (again t))
      × MatchInv o Q M t
      × (match_cost Q M t < budget)

  pop_stay : next_pool popped ≡ ok (again popped) → PopOk
  pop_stay e = (popped, e, FullInv-MatchInv o Q M popped popped-FullInv, popped_cost)

  no_labels : below ≡ [] → labels ≡ []
  no_labels e = subst (λ (l : List MachineMatch). MFilled s.mreqs s.pool Q l labels) e v.filled

  pop_pool : (name : String) (rest : List String) → below ≡ [] → s.pool_stack ≡ name ∷ rest → PopOk
  unfolding next_pool level_cost
  pop_pool name rest idle next =
      let (t, u, e, f, inv, cost) =
        enter_pool_lem o Q M popped popped-Common v.kept.same_mreqs v.kept.same_pools
          (no_labels idle) idle name rest next in
      (u, ground (arith, idle, next, e, f), inv, rw next (omega (arith, cost)))

  pop_on : (bs : List MachineMatch) (ps : List String) → below ≡ bs → s.pool_stack ≡ ps → PopOk
  unfolding next_pool
  pop_on (b ∷ bs) ps e f = pop_stay (ground (arith, e))
  pop_on [] [] e f = pop_stay (ground (arith, e, f))
  pop_on [] (name ∷ rest) e f = pop_pool name rest e f

  pub retry_none : (rest : List String) → RetryOk (none, rest)
  unfolding settle_machine pop_machine_stack
  retry_none rest = pop_on below s.pool_stack refl refl
