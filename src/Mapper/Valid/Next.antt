-- ===== src/Mapper/Valid/Next.antt =====
-- The loop over `remaining_matches` of `_match`.
use lnst.Prelude.{
  ◌≤◌, ◌<◌, String, ◌≡◌, refl, true, none, some, List, [], ◌∷◌, ◌⊎◌, inl, inr, arith, string_eq,
  count, length, Bool-cases, ==_self,
}
use lnst.Prelude.Exc.{ok}
use lnst.Prelude.Dict.{get}
use lnst.Mapper.Defs.{Host, Hosts}
use lnst.Mapper.Compat.{params_fit}
use lnst.Mapper.Search.{next_machine}

-- The choice of the loop, over what remained before it.
pub record ChosenMachine (req_m : Host) (pool : Hosts) (before : List String) (p_id : String)
    (pool_m : Host) (rest : List String) : Type 0 where
  pub found : get pool p_id ≡ some pool_m
  pub fits : params_fit req_m.params pool_m.params ≡ true
  pub was_there : 0 < count p_id before
  pub less : (x : String) → count x rest ≤ count x before
  pub shorter : length rest < length before

module _ (mreqs pool : Hosts) (m_id : String) (req_m : Host)
    (is_req : get mreqs m_id ≡ some req_m) where
  abbrev pub NextMachine : List String → Type 0
  NextMachine before =
      (next_machine mreqs pool m_id before ≡ ok (none, []))
      ⊎ ((p_id : String) × (pool_m : Host) × (rest : List String) × (next_machine mreqs pool m_id
              before
            ≡ ok (some p_id, rest))
          × ChosenMachine req_m pool before p_id pool_m rest)

  NextMachine-cons :
      (i : String) (is : List String) (p : Host)
      → get pool i ≡ some p
      → NextMachine is
      → NextMachine (i ∷ is)
  unfolding next_machine count
  NextMachine-cons i is p e later = elim (Bool-cases (params_fit req_m.params p.params)) [
    | inl fit ↦ inr (
      i,
      p,
      is,
      ground (arith, e, fit, is_req),
      record {
        found = e;
        fits = fit;
        was_there = ground (arith, ==_self i);
        less = λ x. ground arith;
        shorter = omega arith;
      },
    )
    | inr unfit ↦ elim later [
      | inl nothing ↦ inl (ground (arith, e, unfit, nothing, is_req))
      | inr (q_id, q, rest, eq, ch) ↦ inr (
        q_id,
        q,
        rest,
        ground (arith, e, unfit, eq, is_req),
        record {
          found = ch.found;
          fits = ch.fits;
          was_there = ground (arith, ch.was_there);
          less = λ x. ground (arith, ch.less x);
          shorter = omega (arith, ch.shorter);
        },
      )
    ]
  ]

  -- Where all that remains is in the pool, the loop ends with no exception: with nothing left, or
  -- with a compatible machine.
  pub next_machine_lem :
      (before : List String)
      → ((x : String) → 0 < count x before → (p : Host) × (get pool x ≡ some p))
      → NextMachine before
  unfolding next_machine count
  next_machine_lem [] there = inl refl
  next_machine_lem (i ∷ is) there =
      let found : (p : Host) × (get pool i ≡ some p) = there i (ground (arith, ==_self i)) in
      NextMachine-cons i is found.0 found.1 (next_machine_lem is (λ x h. there x (ground arith)))
