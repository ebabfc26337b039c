-- ===== src/Mapper/Valid/Loop.antt =====
-- The loop of `_match` ends within its cost: with every requirement mapped, or with no pool left.
use lnst.Prelude.{ℕ, zero, suc, ◌<◌, ◌≡◌, Bool, true, false, some, [], arith, string_eq}
use lnst.Prelude.Exc.{ok}
use lnst.Mapper.Defs.{Mapper}
use lnst.Mapper.Search.{Step, done, again, match_step, match_loop}
use lnst.Mapper.Valid.{MatchInv, FullInv, match_cost}
use lnst.Mapper.Valid.Round.{RoundOk, match_step_lem}

-- How `_match` ends.
abbrev pub MatchOk : Mapper → ℕ → ℕ → Mapper → Bool → Mapper → Type 0
MatchOk o Q M s true t =
    FullInv o Q M t × (t.unmatched_req_machines ≡ []) × (match_cost Q M t < match_cost Q M s)
MatchOk o Q M s false t = MatchInv o Q M t × (t.machine_stack ≡ [])

module _ (o : Mapper) (Q M if_fuel : ℕ) (enough : Q < if_fuel) where
  abbrev pub Matched : ℕ → Mapper → Type 0
  Matched fuel s =
      (b : Bool) × (t : Mapper) × (match_loop if_fuel fuel s ≡ some (ok (b, t)))
      × MatchOk o Q M s b t

  later_ok :
      (s t : Mapper) (b : Bool) (u : Mapper)
      → match_cost Q M t < match_cost Q M s
      → MatchOk o Q M t b u
      → MatchOk o Q M s b u
  later_ok s t true u less (i, e, cost) = (i, e, omega arith)
  later_ok s t false u less h = h

  loop_from :
      (fuel : ℕ) (s : Mapper) (r : Step)
      → ((t : Mapper) → MatchInv o Q M t → match_cost Q M t < fuel → Matched fuel t)
      → match_cost Q M s < suc fuel
      → MatchInv o Q M s
      → match_step if_fuel s ≡ some (ok r)
      → RoundOk o Q M s r
      → Matched (suc fuel) s
  unfolding match_loop
  loop_from fuel s (done true t) ih less i e good = (true, t, ground (arith, e), good)
  loop_from fuel s (done false t) ih less i e (same, empty) =
      (false, s, ground (arith, e, same), (i, empty))
  loop_from fuel s (again t) ih less i e (j, cost) =
      let (b, u, eq, good) = ih t j (omega arith) in
      (b, u, ground (arith, e, eq), later_ok s t b u cost good)

  -- With fuel for its cost the search ends and raises nothing.
  pub match_loop_lem :
      (fuel : ℕ) (s : Mapper) → MatchInv o Q M s → match_cost Q M s < fuel → Matched fuel s
  match_loop_lem zero s i less = absurd (omega arith)
  match_loop_lem (suc fuel) s i less =
      let (r, e, good) = match_step_lem o Q M if_fuel enough s i in
      loop_from fuel s r (match_loop_lem fuel) less i e good
