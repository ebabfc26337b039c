-- ===== src/Mapper/IfValid/Next.antt =====
-- The loop over `remaining_matches` of `_if_match`.
use lnst.Prelude.{
  ◌≤◌, ◌<◌, String, ◌≡◌, refl, true, none, some, List, [], ◌∷◌, ◌⊎◌, inl, inr, arith, string_eq,
  count, length, Bool-cases, ==_self,
}
use lnst.Prelude.Exc.{ok}
use lnst.Prelude.Dict.{get}
use lnst.Mapper.Defs.{Iface, Host, Labels}
use lnst.Mapper.Compat.{check_interface_compatibility}
use lnst.Mapper.IfSearch.{next_if}

-- The choice of the loop, over what remained before it.
pub record Chosen (pool_m : Host) (req_if : Iface) (labels : Labels) (before : List String)
    (p_id : String) (pool_if : Iface) (rest : List String) : Type 0 where
  pub found : get pool_m.interfaces p_id ≡ some pool_if
  pub fits : check_interface_compatibility labels req_if pool_if ≡ true
  pub was_there : 0 < count p_id before
  pub less : (x : String) → count x rest ≤ count x before
  pub shorter : length rest < length before

module _ (pool_m : Host) (req_if : Iface) (labels : Labels) where
  abbrev NextIf : List String → Type 0
  NextIf before =
      (next_if pool_m req_if labels before ≡ ok (none, []))
      ⊎ ((p_id : String) × (pool_if : Iface) × (rest : List String) × (next_if pool_m req_if labels
              before
            ≡ ok (some (p_id, pool_if), rest))
          × Chosen pool_m req_if labels before p_id pool_if rest)

  NextIf-cons :
      (i : String) (is : List String) (p : Iface)
      → get pool_m.interfaces i ≡ some p
      → NextIf is
      → NextIf (i ∷ is)
  unfolding next_if count
  NextIf-cons i is p e later = elim (Bool-cases (check_interface_compatibility labels req_if p)) [
    | inl fit ↦ inr (
      i,
      p,
      is,
      ground (arith, e, fit),
      record {
        found = e;
        fits = fit;
        was_there = ground (arith, ==_self i);
        less = λ x. ground arith;
        shorter = omega arith;
      },
    )
    | inr unfit ↦ elim later [
      | inl nothing ↦ inl (ground (arith, e, unfit, nothing))
      | inr (q_id, q, rest, eq, ch) ↦ inr (
        q_id,
        q,
        rest,
        ground (arith, e, unfit, eq),
        record {
          found = ch.found;
          fits = ch.fits;
          was_there = ground (arith, ch.was_there);
          less = λ x. ground (arith, ch.less x);
          shorter = omega (arith, ch.shorter);
        },
      )
    ]
  ]

  -- Where all that remains is in the pool machine, the loop ends with no exception: with nothing
  -- left, or with a compatible interface.
  pub next_if_lem :
      (before : List String)
      → ((x : String) → 0 < count x before → (p : Iface) × (get pool_m.interfaces x ≡ some p))
      → NextIf before
  unfolding next_if count
  next_if_lem [] there = inl refl
  next_if_lem (i ∷ is) there =
      let found : (p : Iface) × (get pool_m.interfaces i ≡ some p) =
        there i (ground (arith, ==_self i)) in
      NextIf-cons i is found.0 found.1 (next_if_lem is (λ x h. there x (ground arith)))
