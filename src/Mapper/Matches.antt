-- ===== src/Mapper/Matches.antt =====
-- The generator `matches` of MachineMapper.py, over all its results.
use lnst.Prelude.{
  ℕ, zero, suc, ◌≤◌, ◌<◌, String, ◌≡◌, refl, Bool, true, false, none, some, List, [], ◌∷◌, arith,
  string_eq, ◌⊎◌, All, ◌≢◌, subst,
}
use lnst.Prelude.Exc.{ok, mapper_error}
use lnst.Prelude.Dict.{get}
use lnst.Mapper.Defs.{Hosts, Mapper}
use lnst.Mapper.Mapping.{
  Mapping, Yielded, get_mapping, yield_loop, search_from, or_no_match, matches,
}
use lnst.Mapper.Search.{match_loop}
use lnst.Mapper.Valid.{MatchInv, match_cost}
use lnst.Mapper.Valid.Pools.{FullInv-MatchInv}
use lnst.Mapper.Valid.Loop.{MatchOk, match_loop_lem}
use lnst.Mapper.Valid.Reset.{Config, search_cost, reset_match_state_lem}
use lnst.Mapper.Sound.{IsMatch, Found-of}

-- A match for the requirements of `o` by one of its pools, which the mapping names.
abbrev pub IsMatchOf : Mapper → Mapping → Type 0
IsMatchOf o mp =
    (pool : Hosts) × IsMatch o.mreqs pool mp
    × ((o.pools ≡ []) ⊎ ((k : String) × (mp.pool_name ≡ some k) × (get o.pools k ≡ some pool)))

-- Only matches were yielded, and nothing was raised.
pub record OnlyMatches (o : Mapper) (y : Yielded) : Type 0 where
  pub all_match : All (IsMatchOf o) y.mappings
  pub no_error : y.raised ≡ none

module _ (o : Mapper) (Q M if_fuel fuel : ℕ) (enough : Q < if_fuel) (multimatch : Bool) where
  abbrev Yields : ℕ → Mapper → Type 0
  Yields rounds s =
      (y : Yielded) × (yield_loop if_fuel fuel rounds multimatch s ≡ some y) × OnlyMatches o y

  yield_stop :
      (rounds : ℕ) (s u : Mapper)
      → match_loop if_fuel fuel s ≡ some (ok (false, u))
      → Yields (suc rounds) s
  unfolding yield_loop
  yield_stop rounds s u e = (
    record { mappings = []; raised = none; state = u },
    ground (arith, e),
    record { all_match = tt; no_error = refl },
  )

module _ (o : Mapper) (Q M if_fuel fuel : ℕ) (enough : Q < if_fuel) where
  yield_more :
      (multimatch : Bool) (rounds : ℕ) (s u : Mapper) (mp : Mapping)
      → match_loop if_fuel fuel s ≡ some (ok (true, u))
      → get_mapping u ≡ ok mp
      → IsMatchOf o mp
      → Yields o Q M if_fuel fuel enough multimatch rounds u
      → Yields o Q M if_fuel fuel enough multimatch (suc rounds) s
  unfolding yield_loop
  yield_more false rounds s u mp e g m later = (
    record { mappings = mp ∷ []; raised = none; state = u },
    ground (arith, e, g),
    record { all_match = (m, tt); no_error = refl },
  )
  yield_more true rounds s u mp e g m (y, f, good) = (
    record y { mappings = mp ∷ y.mappings },
    ground (arith, e, g, f),
    record { all_match = (m, good.all_match); no_error = good.no_error },
  )

  -- Each `_match` costs, so the loop ends within the rounds that the search can take.
  yield_loop_lem :
      (multimatch : Bool) (rounds : ℕ) (s : Mapper)
      → MatchInv o Q M s
      → match_cost Q M s < fuel
      → match_cost Q M s < rounds
      → Yields o Q M if_fuel fuel enough multimatch rounds s
  yield_loop_lem multimatch zero s i less less' = absurd (omega arith)
  yield_loop_lem multimatch (suc rounds) s i less less' =
      let (b, u, e, good) = match_loop_lem o Q M if_fuel enough fuel s i less in
      go b u e good (λ j l.
        yield_loop_lem multimatch rounds u j (omega (arith, less, l)) (omega (arith, less', l)))
    where
      go :
          (b : Bool) (u : Mapper)
          → match_loop if_fuel fuel s ≡ some (ok (b, u))
          → MatchOk o Q M s b u
          → (MatchInv o Q M u
              → match_cost Q M u < match_cost Q M s
              → Yields o Q M if_fuel fuel enough multimatch rounds u)
          → Yields o Q M if_fuel fuel enough multimatch (suc rounds) s
      go false u e good later = yield_stop o Q M if_fuel fuel enough multimatch rounds s u e
      go true u e (j, d, cost) later =
          let (mp, g, m, named) = Found-of o Q M s true u (j, d, cost) in
          yield_more multimatch rounds s u mp e g (u.pool, m, named)
            (later (FullInv-MatchInv o Q M u j) cost)

-- What a consumer of `matches` sees: matches only, and MapperError exactly if there is none.
pub record MatchesOk (o : Mapper) (y : Yielded) : Type 0 where
  pub all_match : All (IsMatchOf o) y.mappings
  pub error : (y.mappings ≡ [] → y.raised ≡ some mapper_error) × (y.mappings ≢ [] → y.raised ≡ none)

or_no_match_on :
    (o : Mapper) (y : Yielded) (ms : List Mapping)
    → y.mappings ≡ ms
    → OnlyMatches o y
    → MatchesOk o (or_no_match y)
unfolding or_no_match
or_no_match_on o y [] e good = record {
  all_match = ground (arith, e, good.no_error);
  error = (
    (λ h. ground (arith, e, good.no_error)),
    (λ h. absurd (h (ground (arith, e, good.no_error)))),
  );
}
or_no_match_on o y (m ∷ ms) e good =
    subst (λ z. MatchesOk o z) (same e)
      (record { all_match = good.all_match; error = ((λ h. cc (e, h)), (λ h. good.no_error)) })
  where
    same : y.mappings ≡ m ∷ ms → y ≡ or_no_match y
    same e = ground (arith, e, good.no_error)

or_no_match_lem : (o : Mapper) (y : Yielded) → OnlyMatches o y → MatchesOk o (or_no_match y)
or_no_match_lem o y good = or_no_match_on o y y.mappings refl good

-- From a well-formed configuration without virtual machines, with fuel for the search, `matches`
-- yields only matches for the requirements, by machines of the pool that each names, whether one
-- or all are asked for; it raises MapperError if it yields none, and nothing otherwise.
pub matches_total :
    (Q M if_fuel fuel rounds : ℕ) (multimatch : Bool) (s : Mapper)
    → Config Q M s
    → Q < if_fuel
    → search_cost Q M s ≤ fuel
    → search_cost Q M s ≤ rounds
    → (y : Yielded) × (matches if_fuel fuel rounds multimatch false s ≡ some y) × MatchesOk s y
unfolding matches search_from
matches_total Q M if_fuel fuel rounds multimatch s c enough fuel_ok rounds_ok =
    let (t, e, i, cost) = reset_match_state_lem Q M s c in
    let (y, f, good) =
      yield_loop_lem s Q M if_fuel fuel enough multimatch rounds t i (omega arith) (omega arith) in
    (or_no_match y, ground (arith, e, f), or_no_match_lem s y good)
