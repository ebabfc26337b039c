-- ===== src/Mapper/Valid/Round.antt =====
-- One round of the loop of `_match` keeps the invariant, ends or costs, and raises nothing.
use lnst.Prelude.{
  ℕ, zero, suc, ◌+◌, ◌*◌, ◌≤◌, ◌<◌, String, ◌≡◌, refl, ap, sym, subst, ◌∙◌, Bool, true, false,
  Option, none, some, List, [], ◌∷◌, inl, inr, arith, string_eq, count, length,
}
use lnst.Prelude.Exc.{ok}
use lnst.Prelude.Dict.{get, keys, get_of_count}
use lnst.Mapper.Defs.{Host, Labels, IfMatch, MachineMatch, Mapper, remove, remove_total}
use lnst.Mapper.IfSearch.{IfState, if_match, if_loop, if_step}
use lnst.Mapper.IfValid.{Site, Filled, TopFilled, IfInv, own, if_cost, if_ids, level_cost, sub_cost}
use lnst.Mapper.IfValid.Step.{SameFrame, size_of, level_cost_drop, level_cost_mono}
use lnst.Mapper.IfValid.Loop.{LoopOk, if_loop_lem}
use lnst.Mapper.Search.{
  Step, done, again, match_step, retry_machine, unmap_machine, next_requirement, next_machine,
}
use lnst.Mapper.Valid.{
  m_ids, m_taken, MFilled, MPlaced, Vacant, TopInv, MatchInv, FullInv, MRemaining, at, frame_size,
  frame_work, m_cost, pool_cost, match_cost,
}
use lnst.Mapper.Valid.Push.{pushed, push_eq, pushed-MatchInv, pushed_cost}
use lnst.Mapper.Valid.Next.{next_machine_lem}
use lnst.Mapper.Valid.Retry.{Vacated, vac, budget, RetryOk, retry_none}
use lnst.Mapper.Valid.Map.{retry_some}

-- The state that goes into the branches after `_if_match`.
abbrev pub after_ifs : Mapper → MachineMatch → List MachineMatch → Labels → Mapper
after_ifs s n below labels = record s { machine_stack = n ∷ below; net_label_mapping = labels }

module _ (o : Mapper) (Q M : ℕ) (s : Mapper) (n : MachineMatch) (below : List MachineMatch)
    (labels : Labels) (free : List String) (v : Vacated o Q M s n below labels free)
    (unmapped : unmap_machine (after_ifs s n below labels) n
      ≡ vac o Q M s n below labels free v) where
  abbrev pub Retried : Type 0
  Retried =
      (t : Mapper) × (retry_machine (after_ifs s n below labels) n below ≡ ok (again t))
      × MatchInv o Q M t
      × (match_cost Q M t < budget o Q M s n below labels free v)

  there : (x : String) → 0 < count x n.remaining_matches → (p : Host) × (get s.pool x ≡ some p)
  there x h = get_of_count s.pool x (omega (arith, v.to_try x, v.in_pool x))

  retry_from :
      (found : Option String × List String)
      → next_machine s.mreqs s.pool n.m_id n.remaining_matches ≡ ok found
      → RetryOk o Q M s n below labels free v found
      → Retried
  unfolding retry_machine
  retry_from found e (t, eq, inv, cost) = (t, ground (arith, unmapped, e, eq), inv, cost)

  -- After a failed interface search the loop goes on, for less.
  pub retry_machine_lem : Retried
  retry_machine_lem =
      elim (next_machine_lem s.mreqs s.pool n.m_id v.req_m v.is_req n.remaining_matches there) [
        | inl nothing ↦ retry_from (none, []) nothing (retry_none o Q M s n below labels free v [])
        | inr (p_id, pool_m, rest, eq, ch) ↦
            let took : (ys : List String) × (remove free p_id ≡ some ys) =
              remove_total p_id free (omega (arith, v.to_try p_id, ch.was_there)) in
            retry_from (some p_id, rest) eq
              (retry_some o Q M s n below labels free v p_id pool_m rest ch took.0 took.1)
      ]

-- What a round may end in.
abbrev pub RoundOk : Mapper → ℕ → ℕ → Mapper → Step → Type 0
RoundOk o Q M s (again t) = MatchInv o Q M t × (match_cost Q M t < match_cost Q M s)
RoundOk o Q M s (done true t) =
    FullInv o Q M t × (t.unmatched_req_machines ≡ []) × (match_cost Q M t < match_cost Q M s)
RoundOk o Q M s (done false t) = (t ≡ s) × (s.machine_stack ≡ [])

module _ (o : Mapper) (Q M : ℕ) (fuel : ℕ) (enough : Q < fuel) (s : Mapper)
    (i : MatchInv o Q M s) where
  abbrev pub Rounded : Type 0
  Rounded = (r : Step) × (match_step fuel s ≡ some (ok r)) × RoundOk o Q M s r

  module _ (m : MachineMatch) (ms : List MachineMatch) (on_top : s.machine_stack ≡ m ∷ ms) where
    required_top :
        (x : String)
        → count x s.unmatched_req_machines + count x (m.m_id ∷ m_ids ms) ≡ count x (keys s.mreqs)
    unfolding m_ids
    required_top x =
        subst
          (λ (l : List MachineMatch).
            count x s.unmatched_req_machines + count x (m_ids l) ≡ count x (keys s.mreqs))
          on_top (i.common.required x)

    in_pool_top :
        (x : String)
        → count x s.unmatched_pool_machines + count x (own m.current_match (m_taken ms))
          ≡ count x (keys s.pool)
    unfolding m_taken
    in_pool_top x =
        subst
          (λ (l : List MachineMatch).
            count x s.unmatched_pool_machines + count x (m_taken l) ≡ count x (keys s.pool))
          on_top (i.common.in_pool x)

    Remaining-top : MRemaining s.unmatched_pool_machines (m ∷ ms)
    Remaining-top =
        subst (λ (l : List MachineMatch). MRemaining s.unmatched_pool_machines l) on_top
          i.common.remaining

    -- The cost before the round.
    cost_top :
        match_cost Q M s
        ≡ level_cost (M * (1 + Q)) (length s.unmatched_req_machines) (frame_work Q s.pool m)
          + m_cost Q M s.pool (suc (length s.unmatched_req_machines)) ms
          + length s.pool_stack * (1 + pool_cost Q M s.mreqs)
    unfolding match_cost
    cost_top = rw on_top

    Vacant-Vacated :
        Vacant s.mreqs s.pool Q m
        → MFilled s.mreqs s.pool Q ms s.net_label_mapping
        → Vacated o Q M s m ms s.net_label_mapping s.unmatched_pool_machines
    Vacant-Vacated va below = record {
      kept = i.kept;
      not_virtual = i.common.not_virtual;
      reqs_ok = i.common.reqs_ok;
      pool_ok = i.common.pool_ok;
      pools_ok = i.common.pools_ok;
      stack_ok = i.common.stack_ok;
      required = required_top;
      in_pool = λ x. ground (arith, in_pool_top x, va.no_match);
      to_try = λ x. ground (arith, Remaining-top.0 x, va.no_match);
      remaining =
          subst (λ (o : Option String). MRemaining (own o s.unmatched_pool_machines) ms) va.no_match
            Remaining-top.1;
      filled = below;
      no_ifs = va.no_ifs;
      req_m = va.req_m;
      is_req = va.is_req;
      ifs = va.ifs;
    }

    -- The round ended with a vacated top: it goes on, for less.
    go_on :
        (n : MachineMatch) (labels : Labels) (free : List String)
        (v : Vacated o Q M s n ms labels free)
        → unmap_machine (after_ifs s n ms labels) n ≡ vac o Q M s n ms labels free v
        → n.remaining_matches ≡ m.remaining_matches
        → ((t : Mapper)
            → retry_machine (after_ifs s n ms labels) n ms ≡ ok (again t)
            → match_step fuel s ≡ some (ok (again t)))
        → Rounded
    unfolding frame_work
    go_on n labels free v unmapped rest eq =
        let (t, e, inv, cost) = retry_machine_lem o Q M s n ms labels free v unmapped in
        (again t, eq t e, (inv, budget_le t cost))
      where
        budget_le :
            (t : Mapper)
            → match_cost Q M t < budget o Q M s n ms labels free v
            → match_cost Q M t < match_cost Q M s
        budget_le t cost = omega (
          arith,
          cost,
          cost_top,
          level_cost_mono (M * (1 + Q)) (length s.unmatched_req_machines)
              (length n.remaining_matches * (1 + Q)) (frame_work Q s.pool m)
              (rw rest (omega arith)),
        )

    -- The round after an interface search that failed, and after one that found all interfaces.
    failed_eq :
        (t : IfState) (r : Step)
        → if_loop fuel s.mreqs s.pool (at m s.net_label_mapping) ≡ some (ok (false, t))
        → retry_machine (after_ifs s t.top ms t.labels) t.top ms ≡ ok r
        → match_step fuel s ≡ some (ok r)
    unfolding match_step if_match
    failed_eq t r looped e = ground (arith, on_top, i.common.not_virtual, looped, e)

    found_eq :
        (t : IfState) (r : Step)
        → if_loop fuel s.mreqs s.pool (at m s.net_label_mapping) ≡ some (ok (true, t))
        → next_requirement (after_ifs s t.top ms t.labels) ≡ ok r
        → match_step fuel s ≡ some (ok r)
    unfolding match_step if_match
    found_eq t r looped e = ground (arith, on_top, i.common.not_virtual, looped, e)

    no_ifs_eq :
        (k : ℕ)
        → Q < k
        → m.if_stack ≡ []
        → if_loop k s.mreqs s.pool (at m s.net_label_mapping)
          ≡ some (ok (false, at m s.net_label_mapping))
    unfolding if_loop if_step
    no_ifs_eq zero h e = absurd (omega arith)
    no_ifs_eq (suc k) h e = ground (arith, e)

    round_vacant :
        Vacant s.mreqs s.pool Q m → MFilled s.mreqs s.pool Q ms s.net_label_mapping → Rounded
    unfolding unmap_machine
    round_vacant va below =
        go_on m s.net_label_mapping s.unmatched_pool_machines (Vacant-Vacated va below)
          (ground (arith, va.no_match)) refl
          (λ t e.
            failed_eq (at m s.net_label_mapping) (again t) (no_ifs_eq fuel enough va.no_ifs) e)

    module _ (c : Site) (p : MPlaced s.mreqs s.pool Q c m s.net_label_mapping)
        (below : MFilled s.mreqs s.pool Q ms c.base) (t : IfState) (same : SameFrame m t.top) where
      failed-Vacated :
          IfInv c t
          → t.top.if_stack ≡ []
          → Vacated o Q M s t.top ms t.labels (p.site.target ∷ s.unmatched_pool_machines)
      unfolding count if_ids
      failed-Vacated inv empty = record {
        kept = i.kept;
        not_virtual = i.common.not_virtual;
        reqs_ok = i.common.reqs_ok;
        pool_ok = i.common.pool_ok;
        pools_ok = i.common.pools_ok;
        stack_ok = i.common.stack_ok;
        required = λ x. ground (arith, required_top x, same.same_m_id);
        in_pool = λ x. ground (arith, in_pool_top x, p.site.is_target);
        to_try = λ x. ground (arith, Remaining-top.0 x, p.site.is_target, same.same_rest);
        remaining =
            subst (λ (o : Option String). MRemaining (own o s.unmatched_pool_machines) ms)
              p.site.is_target Remaining-top.1;
        filled =
            subst (λ (l : Labels). MFilled s.mreqs s.pool Q ms l) (sym (failed_labels inv empty))
              below;
        no_ifs = empty;
        req_m = c.req_m;
        is_req = rw (same.same_m_id, p.inv.at_machine) p.site.is_req_m;
        ifs = λ x. ground (arith, inv.required x, empty);
      }
        where
          failed_labels : IfInv c t → t.top.if_stack ≡ [] → t.labels ≡ c.base
          failed_labels inv empty =
              subst (λ (l : List IfMatch). TopFilled c l t.labels) empty inv.filled

      round_failed :
          IfInv c t
          → t.top.if_stack ≡ []
          → if_loop fuel s.mreqs s.pool (at m s.net_label_mapping) ≡ some (ok (false, t))
          → Rounded
      unfolding unmap_machine
      round_failed inv empty looped =
          go_on t.top t.labels (p.site.target ∷ s.unmatched_pool_machines)
            (failed-Vacated inv empty) (ground (arith, p.site.is_target, same.same_match))
            same.same_rest (λ u e. failed_eq t (again u) looped e)

      module _ (inv : IfInv c t) (placed : t.top.unmatched_ifs ≡ [])
          (filled : Filled c t.top.if_stack t.labels)
          (less : if_cost (size_of c) t < if_cost (size_of c) (at m s.net_label_mapping)) where
        abbrev full : Mapper
        full = after_ifs s t.top ms t.labels

        full-FullInv : FullInv o Q M full
        unfolding m_ids m_taken count
        full-FullInv = record {
          kept = i.kept;
          common = record {
            not_virtual = i.common.not_virtual;
            reqs_ok = i.common.reqs_ok;
            pool_ok = i.common.pool_ok;
            pools_ok = i.common.pools_ok;
            stack_ok = i.common.stack_ok;
            required = λ x. ground (arith, required_top x, same.same_m_id);
            in_pool = λ x. ground (arith, in_pool_top x, same.same_match);
            remaining = (
              λ x. rw (same.same_rest, same.same_match) (Remaining-top.0 x),
              rw same.same_match Remaining-top.1,
            );
          };
          full = (
            c,
            record {
              site = record {
                target = p.site.target;
                is_req_m = p.site.is_req_m;
                is_target = same.same_match ∙ p.site.is_target;
                is_pool_m = p.site.is_pool_m;
              };
              fits = p.fits;
              inv = inv;
              cost = omega (arith, p.cost, less);
            },
            placed,
            filled,
            below,
          );
        }

        size_m : frame_size s.pool m ≡ size_of c
        unfolding frame_size
        size_m = ground (arith, p.site.is_target, p.site.is_pool_m)

        size_t : frame_size s.pool t.top ≡ size_of c
        unfolding frame_size
        size_t = ground (arith, same.same_match, p.site.is_target, p.site.is_pool_m)

        work_lt : frame_work Q s.pool t.top < frame_work Q s.pool m
        unfolding frame_work if_cost
        work_lt = ground (arith, size_t, size_m, same.same_rest, less)

        cost_full :
            match_cost Q M full + 1 + sub_cost (M * (1 + Q)) (length s.unmatched_req_machines)
            ≤ match_cost Q M s
        unfolding match_cost
        cost_full = omega (
          arith,
          cost_top,
          level_cost_drop (M * (1 + Q)) (length s.unmatched_req_machines)
              (frame_work Q s.pool t.top) (frame_work Q s.pool m) work_lt,
        )

        found_cost :
            (r : String) (rs : List String) (e : s.unmatched_req_machines ≡ r ∷ rs)
            → match_cost Q M (pushed o Q M full full-FullInv r rs e) < match_cost Q M s
        unfolding match_cost
        found_cost r rs e = omega (
          arith,
          cost_full,
          pushed_cost o Q M full full-FullInv r rs e,
          ap (λ (l : List String). sub_cost (M * (1 + Q)) (length l)) e,
        )

        found_on :
            (rs : List String)
            → s.unmatched_req_machines ≡ rs
            → if_loop fuel s.mreqs s.pool (at m s.net_label_mapping) ≡ some (ok (true, t))
            → Rounded
        unfolding next_requirement
        found_on [] e looped = (
          done true full,
          found_eq t (done true full) looped (ground (arith, e)),
          (full-FullInv, e, omega (arith, cost_full)),
        )
        found_on (r ∷ rs) e looped =
            let u = pushed o Q M full full-FullInv r rs e in
            (
              again u,
              found_eq t (again u) looped
                  (ground (arith, e, push_eq o Q M full full-FullInv r rs e)),
              (pushed-MatchInv o Q M full full-FullInv r rs e, found_cost r rs e),
            )

    round_placed :
        (c : Site)
        → MPlaced s.mreqs s.pool Q c m s.net_label_mapping
        → MFilled s.mreqs s.pool Q ms c.base
        → Rounded
    round_placed c p below =
        let (b, t, looped, good) =
          if_loop_lem s.mreqs s.pool c fuel (at m s.net_label_mapping) p.site p.inv
            (omega (arith, p.cost)) in
        ended b t looped good
      where
        ended :
            (b : Bool) (t : IfState)
            → if_loop fuel s.mreqs s.pool (at m s.net_label_mapping) ≡ some (ok (b, t))
            → LoopOk c (at m s.net_label_mapping) b t
            → Rounded
        ended true t looped (inv, placed, filled, same, less) =
            found_on c p below t same inv placed filled less s.unmatched_req_machines refl looped
        ended false t looped (inv, empty, same) = round_failed c p below t same inv empty looped

  round_on :
      (st : List MachineMatch)
      → s.machine_stack ≡ st
      → TopInv s.mreqs s.pool Q st s.net_label_mapping
      → Rounded
  unfolding match_step
  round_on [] e top = (done false s, ground (arith, e), (refl, e))
  round_on (m ∷ ms) e (inl (va, below)) = round_vacant m ms e va below
  round_on (m ∷ ms) e (inr (c, p, below)) = round_placed m ms e c p below

  -- A round raises nothing; it ends the search or keeps the invariant at a lower cost.
  pub match_step_lem : Rounded
  match_step_lem = round_on s.machine_stack refl i.top
