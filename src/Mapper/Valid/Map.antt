-- ===== src/Mapper/Valid/Map.antt =====
-- Mapping the top requirement to a compatible machine of the pool, in `_match`.
use lnst.Prelude.{
  ℕ, suc, ◌+◌, ◌*◌, ◌≤◌, ◌<◌, String, ◌≡◌, ◌≢◌, refl, ap, sym, subst, none, some, List, [], ◌∷◌,
  inl, inr, arith, string_eq, count, length, ==_self,
}
use native.Mathlib.Nat.{le_refl}
use lnst.Prelude.Dict.{get, keys}
use lnst.Mapper.Defs.{
  Host, Owner, Labels, MachineMatch, Mapper, sorted_top, count-sorted_top, length_le_of_count,
  remove, count-remove,
}
use lnst.Mapper.IfValid.{Site, own, if_cost, stack_cost, level_cost, if_ids, taken}
use lnst.Mapper.IfValid.Step.{level_cost_lt, sub_cost_mono, count-own-cong}
use lnst.Mapper.Search.{settle_machine}
use lnst.Mapper.Valid.{
  m_ids, m_taken, MPlaced, MatchInv, MRemaining, at, frame_size, frame_work, match_cost,
}
use lnst.Mapper.Valid.Next.{ChosenMachine}
use lnst.Mapper.Valid.Retry.{Vacated, m_owner_on_stack, vac, budget, RetryOk}

MRemaining-cong :
    (u v : List String) (ms : List MachineMatch)
    → ((x : String) → count x u ≡ count x v)
    → MRemaining u ms
    → MRemaining v ms
MRemaining-cong u v [] e h = tt
MRemaining-cong u v (m ∷ ms) e h =
    let same = count-own-cong m.current_match u v e in
    (
      λ x. subst (λ k. count x m.remaining_matches ≤ k) (same x) (h.0 x),
      MRemaining-cong (own m.current_match u) (own m.current_match v) ms same h.1,
    )

mul_mono : (a b c : ℕ) → a ≤ b → a * c ≤ b * c
mul_mono a b c h = grind arith

length-sorted_top : (xs : List String) → length (sorted_top xs) ≡ length xs
length-sorted_top xs = omega (
  arith,
  length_le_of_count (sorted_top xs) xs (λ x. omega (arith, count-sorted_top x xs)),
  length_le_of_count xs (sorted_top xs) (λ x. omega (arith, count-sorted_top x xs)),
)

module _ (o : Mapper) (Q M : ℕ) (s : Mapper) (n : MachineMatch) (below : List MachineMatch)
    (labels : Labels) (free : List String) (v : Vacated o Q M s n below labels free) (p_id : String)
    (pool_m : Host) (rest : List String)
    (ch : ChosenMachine v.req_m s.pool n.remaining_matches p_id pool_m rest) (free' : List String)
    (took : remove free p_id ≡ some free') where
  others : (x : String) (o : Owner) → get labels x ≡ some o → o.m_id ≢ n.m_id
  unfolding count
  others x o e same = ground (
    arith,
    same,
    m_owner_on_stack s.mreqs s.pool Q below labels v.filled x o e,
    v.required n.m_id,
    v.reqs_ok.distinct n.m_id,
    ==_self n.m_id,
  )

  site : Site
  site = record {
    m_id = n.m_id;
    req_m = v.req_m;
    pool_m = pool_m;
    base = labels;
    req_distinct = v.reqs_ok.ifs_distinct n.m_id v.req_m v.is_req;
    pool_distinct = v.pool_ok.ifs_distinct p_id pool_m ch.found;
    base_others = others;
  }

  module _ (j : String) (js : List String) (e : n.unmatched_ifs ≡ j ∷ js) where
    abbrev pool_ifs : List String
    pool_ifs = sorted_top (keys pool_m.interfaces)

    abbrev new : MachineMatch
    new = record n {
      current_match = some p_id;
      remaining_matches = rest;
      unmatched_pool_ifs = pool_ifs;
      if_stack = record { if_id = j; current_match = none; remaining_matches = pool_ifs } ∷ [];
      unmatched_ifs = js;
    }

    abbrev mapped : Mapper
    mapped = record (vac o Q M s n below labels free v) {
      unmatched_pool_machines = free';
      machine_stack = new ∷ below;
    }

    new_size : suc (length js) ≤ length (keys v.req_m.interfaces)
    new_size = omega (
      arith,
      ap (λ (l : List String). length l) e,
      length_le_of_count n.unmatched_ifs (keys v.req_m.interfaces) (λ x. omega (arith, v.ifs x)),
    )

    new_cost : if_cost (length (keys pool_m.interfaces)) (at new labels) ≤ Q
    unfolding if_cost stack_cost level_cost
    new_cost = rw length-sorted_top (
        omega (
          arith,
          v.pool_ok.ifs n.m_id p_id v.req_m pool_m v.is_req ch.found,
          sub_cost_mono (length (keys pool_m.interfaces)) (suc (length js))
              (length (keys v.req_m.interfaces)) new_size,
        ))

    new-MPlaced : MPlaced s.mreqs s.pool Q site new labels
    unfolding site if_ids taken count
    new-MPlaced = record {
      site = record { target = p_id; is_req_m = v.is_req; is_target = refl; is_pool_m = ch.found };
      fits = ch.fits;
      inv = record {
        at_machine = refl;
        filled = inl (refl, refl);
        required = λ x. ground (arith, v.ifs x, e);
        in_pool = λ x. omega (arith, count-sorted_top x (keys pool_m.interfaces));
        pool_size = omega (arith, length-sorted_top (keys pool_m.interfaces));
        remaining = (λ x. le_refl _, tt);
      };
      cost = new_cost;
    }

    mapped-MatchInv : MatchInv o Q M mapped
    unfolding m_ids m_taken count site
    mapped-MatchInv = record {
      kept = v.kept;
      common = record {
        not_virtual = v.not_virtual;
        reqs_ok = v.reqs_ok;
        pool_ok = v.pool_ok;
        pools_ok = v.pools_ok;
        stack_ok = v.stack_ok;
        required = v.required;
        in_pool = λ x. ground (arith, v.in_pool x, count-remove x p_id free took);
        remaining = (
          λ x. ground (arith, ch.less x, v.to_try x, count-remove x p_id free took),
          MRemaining-cong free (p_id ∷ free') below
              (λ x. ground (arith, count-remove x p_id free took)) v.remaining,
        );
      };
      top = inr (site, new-MPlaced, v.filled);
    }

    new-frame_size : frame_size s.pool new ≡ length (keys pool_m.interfaces)
    unfolding frame_size
    new-frame_size = ground (arith, ch.found)

    work_lt : frame_work Q s.pool new < length n.remaining_matches * (1 + Q)
    unfolding frame_work if_cost
    work_lt = omega (
      arith,
      mul_mono (suc (length rest)) (length n.remaining_matches) (1 + Q) ch.shorter,
      subst (λ k. stack_cost k (length js) new.if_stack ≤ Q) (sym new-frame_size) new_cost,
    )

    mapped_cost : match_cost Q M mapped < budget o Q M s n below labels free v
    unfolding match_cost
    mapped_cost = omega (
      arith,
      level_cost_lt (M * (1 + Q)) (length s.unmatched_req_machines) (frame_work Q s.pool new)
          (length n.remaining_matches * (1 + Q)) work_lt,
    )

    retry_with : RetryOk o Q M s n below labels free v (some p_id, rest)
    unfolding settle_machine
    retry_with =
        (mapped, ground (arith, ch.found, took, v.not_virtual, e), mapped-MatchInv, mapped_cost)

  has_if : 0 < length n.unmatched_ifs
  has_if = omega (
    arith,
    v.reqs_ok.has_ifs n.m_id v.req_m v.is_req,
    length_le_of_count (keys v.req_m.interfaces) n.unmatched_ifs (λ x. omega (arith, v.ifs x)),
  )

  retry_on :
      (us : List String)
      → n.unmatched_ifs ≡ us
      → 0 < length us
      → RetryOk o Q M s n below labels free v (some p_id, rest)
  retry_on [] e h = absurd (omega arith)
  retry_on (j ∷ js) e h = retry_with j js e

  -- The chosen machine is mapped with no exception, for less than the frame could still cost.
  pub retry_some : RetryOk o Q M s n below labels free v (some p_id, rest)
  retry_some = retry_on n.unmatched_ifs refl has_if
