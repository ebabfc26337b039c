-- ===== src/Mapper/Valid/Push.antt =====
-- Pushing a requirement on the machine stack.
use lnst.Prelude.{
  ℕ, suc, ◌+◌, ◌*◌, ◌≤◌, String, ◌≡◌, refl, false, none, some, List, [], ◌∷◌, inl, arith, string_eq,
  count, length, ==_self,
}
use native.Mathlib.Nat.{le_refl}
use lnst.Prelude.Exc.{ok}
use lnst.Prelude.Dict.{get, keys, get_of_count}
use lnst.Mapper.Defs.{Host, MachineMatch, Mapper, sorted_top, count-sorted_top, length_le_of_count}
use lnst.Mapper.IfValid.{if_cost, stack_cost, sub_cost, level_cost}
use lnst.Mapper.IfValid.Step.{level_cost_mono}
use lnst.Mapper.Search.{push_machine_stack}
use lnst.Mapper.Valid.{m_ids, m_taken, MatchInv, FullInv, frame_work, m_cost}

module _ (o : Mapper) (Q M : ℕ) (s : Mapper) (i : FullInv o Q M s) (m : String) (rest : List String)
    (next : s.unmatched_req_machines ≡ m ∷ rest) where
  -- The requirement that is pushed is one of the recipe's.
  pub known : (h : Host) × (get s.mreqs m ≡ some h)
  unfolding count
  known = get_of_count s.mreqs m (ground (arith, i.common.required m, next, ==_self m))

  abbrev pub frame : MachineMatch
  frame = record {
    m_id = m;
    current_match = none;
    remaining_matches = s.unmatched_pool_machines;
    if_stack = [];
    unmatched_ifs = sorted_top (keys known.0.interfaces);
    unmatched_pool_ifs = [];
    virt_matched = false;
  }

  abbrev pub pushed : Mapper
  pushed = record s { unmatched_req_machines = rest; machine_stack = frame ∷ s.machine_stack }

  pub push_eq : push_machine_stack s ≡ ok pushed
  unfolding push_machine_stack
  push_eq = ground (arith, next, known.1)

  pub pushed-MatchInv : MatchInv o Q M pushed
  unfolding m_ids m_taken count
  pushed-MatchInv = record {
    kept = i.kept;
    common = record {
      not_virtual = i.common.not_virtual;
      reqs_ok = i.common.reqs_ok;
      pool_ok = i.common.pool_ok;
      pools_ok = i.common.pools_ok;
      stack_ok = i.common.stack_ok;
      required = λ x. ground (arith, i.common.required x, next);
      in_pool = i.common.in_pool;
      remaining = (λ x. le_refl _, i.common.remaining);
    };
    top = inl (
      record {
        no_match = refl;
        no_ifs = refl;
        req_m = known.0;
        is_req = known.1;
        ifs = λ x. count-sorted_top x (keys known.0.interfaces);
      },
      i.full,
    );
  }

  abbrev size : ℕ
  size = M * (1 + Q)

  free_le : length s.unmatched_pool_machines ≤ M
  free_le = omega (
    arith,
    i.common.pool_ok.machines,
    length_le_of_count s.unmatched_pool_machines (keys s.pool)
        (λ x. omega (arith, i.common.in_pool x)),
  )

  frame_work_le : frame_work Q s.pool frame ≤ size
  unfolding frame_work if_cost stack_cost
  frame_work_le = grind (arith, free_le)

  -- A new level costs no more than the levels that can come above.
  pub pushed_cost :
      m_cost Q M s.pool (length rest) pushed.machine_stack
      ≤ sub_cost size (suc (length rest))
        + m_cost Q M s.pool (length s.unmatched_req_machines) s.machine_stack
  unfolding m_cost sub_cost level_cost
  pushed_cost = rw next (
      omega
        (arith, level_cost_mono size (length rest) (frame_work Q s.pool frame) size frame_work_le))
