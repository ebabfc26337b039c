-- ===== src/Mapper/Valid/Reset.antt =====
-- `reset_match_state` establishes the invariant from the configuration alone.
use lnst.Prelude.{
  ℕ, suc, ◌+◌, ◌*◌, ◌<◌, ◌≡◌, refl, ap, subst, false, some, List, [], ◌∷◌, arith, String, length,
  length-reverse, count-reverse, count, string_eq, All, count-All, inl,
}
use mathlib.Core.List.{reverse}
use lnst.Prelude.Exc.{ok}
use lnst.Prelude.Dict.{Dict, get, keys, get_of_count}
use lnst.Mapper.Defs.{Hosts, Mapper, sorted_top, count-sorted_top}
use lnst.Mapper.Search.{reset_match_state, enter_pool, push_first, pool_machines}
use lnst.Mapper.Valid.{ReqsOk, PoolOk, Common, MatchInv, match_cost, pool_cost, m_ids, m_taken}
use lnst.Mapper.Valid.Pools.{enter_pool_lem, push_first_lem, count-pool_machines}

-- What the search needs of the mapper's configuration: well-formed requirements and pools.
pub record Config (max_ifs max_machines : ℕ) (s : Mapper) : Type 0 where
  pub not_virtual : s.virtual_matching ≡ false
  pub reqs_ok : ReqsOk s.mreqs
  pub pool_ok : PoolOk s.mreqs max_ifs max_machines s.pool
  pub pools_ok :
      (k : String) (p : Hosts) → get s.pools k ≡ some p → PoolOk s.mreqs max_ifs max_machines p

-- Rounds that are enough for a search through all pools.
unfoldable pub search_cost : ℕ → ℕ → Mapper → ℕ
unfolding pool_cost
search_cost max_ifs max_machines s =
    (1 + length (keys s.pools)) * (1 + pool_cost max_ifs max_machines s.mreqs)

module _ (Q M : ℕ) (s : Mapper) (c : Config Q M s) where
  -- The state before a pool is entered; `stack` are the pools' names.
  abbrev base : List String → Mapper
  base stack = record s {
    net_label_mapping = [];
    machine_stack = [];
    unmatched_req_machines = sorted_top (keys s.mreqs);
    unmatched_pool_machines = pool_machines s.virtual_matching s.pool;
    pool_stack = stack;
  }

  known :
      (k : String) → 0 < count k (reverse (keys s.pools)) → (p : Hosts) × (get s.pools k ≡ some p)
  known k h = get_of_count s.pools k (omega (arith, count-reverse k (keys s.pools)))

  base-Common :
      (stack : List String)
      → All (λ k. (p : Hosts) × (get s.pools k ≡ some p)) stack
      → Common Q M (base stack)
  unfolding m_ids m_taken count
  base-Common stack there = record {
    not_virtual = c.not_virtual;
    reqs_ok = c.reqs_ok;
    pool_ok = c.pool_ok;
    pools_ok = c.pools_ok;
    stack_ok = there;
    required = λ x. omega (arith, count-sorted_top x (keys s.mreqs));
    in_pool = λ x. omega (arith, count-pool_machines x s.virtual_matching s.pool c.not_virtual);
    remaining = tt;
  }

  abbrev pub ResetOk : Type 0
  ResetOk =
      (t : Mapper) × (reset_match_state s ≡ ok t)
      × MatchInv s Q M t
      × (match_cost Q M t < search_cost Q M s)

  reset_none :
      (t : Mapper)
      → reverse (keys s.pools) ≡ []
      → push_first (base []) ≡ ok t
      → reset_match_state s ≡ ok t
  unfolding reset_match_state
  reset_none t e h = ground (arith, e, h)

  reset_pool :
      (name : String) (rest : List String) (t u : Mapper)
      → reverse (keys s.pools) ≡ name ∷ rest
      → enter_pool (base (name ∷ rest)) name rest ≡ ok t
      → push_first t ≡ ok u
      → reset_match_state s ≡ ok u
  unfolding reset_match_state enter_pool
  reset_pool name rest t u e h k = ground (arith, e, h, k)

  pools_size :
      (name : String) (rest : List String)
      → reverse (keys s.pools) ≡ name ∷ rest
      → suc (length rest) ≡ length (keys s.pools)
  pools_size name rest e =
      omega (arith, length-reverse (keys s.pools), ap (λ (l : List String). length l) e)

  no_pools_on : (ps : Dict String Hosts) → reverse (keys ps) ≡ [] → ps ≡ []
  unfolding keys
  no_pools_on [] e = refl
  no_pools_on ((k, p) ∷ ps) e =
      absurd
        (omega (arith, length-reverse (keys ((k, p) ∷ ps)), ap (λ (l : List String). length l) e))

  no_pools : reverse (keys s.pools) ≡ [] → s.pools ≡ []
  no_pools e = no_pools_on s.pools e

  reset_on : (stack : List String) → reverse (keys s.pools) ≡ stack → ResetOk
  unfolding search_cost
  reset_on [] e =
      let (t, eq, inv, cost) =
        push_first_lem s Q M (base [])
          (record {
            kept = record { same_mreqs = refl; same_pools = refl; in_pool = inl (no_pools e) };
            common = base-Common [] tt;
            full = refl;
          })
          refl in
      (t, reset_none t e eq, inv, grind (arith, cost))
  reset_on (name ∷ rest) e =
      let (t, u, eq, eq', inv, cost) =
        enter_pool_lem s Q M (base (name ∷ rest))
          (base-Common (name ∷ rest) (
            subst (λ (l : List String). All (λ k. (p : Hosts) × (get s.pools k ≡ some p)) l) e
              (count-All (λ k. (p : Hosts) × (get s.pools k ≡ some p)) (reverse (keys s.pools))
                known)))
          refl refl refl refl name rest refl in
      (
        u,
        reset_pool name rest t u e eq eq',
        inv,
        rw (← pools_size name rest e) (omega (arith, cost)),
      )

  -- Resetting raises nothing, and establishes the invariant.
  pub reset_match_state_lem : ResetOk
  reset_match_state_lem = reset_on (reverse (keys s.pools)) refl
