-- ===== src/Utils/Waits.antt =====
-- When wait_for_condition ends.
use lnst.Prelude.{
  ℕ, zero, suc, ◌+◌, ◌≤◌, ◌<◌, ◌≡◌, refl, sym, subst, Option, none, some, Bool, true, false, ◌==◌,
  ==_iff, nat_eq, arith, Bool-cases, inl, inr, ◌⊎◌,
}
use lnst.Prelude.Exc.{Result, ok, err, timeout}
use lnst.Utils.{wait_from, wait_for_condition}

-- It returns after the first attempt at which the condition holds, or raises after the last that
-- the limit allows, if it held at none.
unfoldable pub Ends : (ℕ → Bool) → ℕ → ℕ → Option (Result (Unit {0})) → Type 0
Ends condition limit attempts waited =
    ((k : ℕ) × (attempts < k)
      × (k ≤ limit)
      × (condition k ≡ true)
      × ((j : ℕ) → attempts < j → j < k → condition j ≡ false)
      × (waited ≡ some (ok tt)))
    ⊎ (((j : ℕ) → attempts < j → j ≤ limit → condition j ≡ false) × (waited ≡ some (err timeout)))

fails_from :
    (condition : ℕ → Bool) (attempts j : ℕ)
    → condition (suc attempts) ≡ false
    → attempts < j
    → (suc attempts < j → condition j ≡ false)
    → condition j ≡ false
fails_from condition attempts j fails h later = elim (Bool-cases (suc attempts == j)) [
  | inl same ↦ subst (λ (i : ℕ). condition i ≡ false) ((==_iff (suc attempts) j).0 same) fails
  | inr differs ↦ later (ground (arith, h, differs))
]

earlier :
    (condition : ℕ → Bool) (limit attempts : ℕ) (w : Option (Result (Unit {0})))
    → condition (suc attempts) ≡ false
    → Ends condition limit (suc attempts) w
    → Ends condition limit attempts w
unfolding Ends
earlier condition limit attempts w fails (inl (k, h, l, holds, before, e)) = inl (
  k,
  omega (arith, h),
  l,
  holds,
  (λ j i m. fails_from condition attempts j fails i (λ later. before j later m)),
  e,
)
earlier condition limit attempts w fails (inr (none_holds, e)) =
    inr ((λ j i m. fails_from condition attempts j fails i (λ later. none_holds j later m)), e)

wait_from-Ends :
    (fuel : ℕ) (condition : ℕ → Bool) (limit attempts : ℕ)
    → attempts < limit
    → limit ≤ fuel + attempts
    → Ends condition limit attempts (wait_from fuel condition limit attempts)
unfolding wait_from Ends
wait_from-Ends zero condition limit attempts less enough = absurd (omega (arith, less, enough))
wait_from-Ends (suc fuel) condition limit attempts less enough =
    elim (Bool-cases (condition (suc attempts))) [
      | inl holds ↦ inl (
        suc attempts,
        omega arith,
        omega (arith, less),
        holds,
        (λ j h k. absurd (omega (arith, h, k))),
        rw (wait_from, holds) refl,
      )
      | inr fails ↦ elim (Bool-cases (suc attempts == limit)) [
        | inl last ↦ inr (
          (λ j h k.
              fails_from condition attempts j fails h
                (λ later. absurd (ground (arith, last, later, k)))),
          rw (wait_from, fails, last) refl,
        )
        | inr more ↦
            subst (λ (w : Option (Result (Unit {0}))). Ends condition limit attempts w)
              (sym (rw (wait_from, fails, more) refl))
              (earlier condition limit attempts (wait_from fuel condition limit (suc attempts))
                fails
                (wait_from-Ends fuel condition limit (suc attempts) (ground (arith, less, more))
                  (omega (arith, enough))))
      ]
    ]

-- With a limit of at least one attempt and fuel for that many, wait_for_condition ends: it returns
-- after the first attempt at which the condition holds, if there is one up to the limit, and raises
-- TimeoutError after the last attempt otherwise.
pub wait_for_condition-Ends :
    (fuel : ℕ) (condition : ℕ → Bool) (limit : ℕ)
    → 0 < limit
    → limit ≤ fuel
    → Ends condition limit 0 (wait_for_condition fuel condition limit)
unfolding wait_for_condition
wait_for_condition-Ends fuel condition limit some_attempt enough =
    wait_from-Ends fuel condition limit 0 some_attempt (omega (arith, enough))

-- What a wait without a limit comes to in the attempts up to `last`: it has returned after the first
-- at which the condition holds, or it goes on, if it held at none.
unfoldable pub GoesOn : (ℕ → Bool) → ℕ → ℕ → Option (Result (Unit {0})) → Type 0
GoesOn condition last attempts waited =
    ((k : ℕ) × (attempts < k)
      × (k ≤ last)
      × (condition k ≡ true)
      × ((j : ℕ) → attempts < j → j < k → condition j ≡ false)
      × (waited ≡ some (ok tt)))
    ⊎ (((j : ℕ) → attempts < j → j ≤ last → condition j ≡ false) × (waited ≡ none))

later_attempt :
    (condition : ℕ → Bool) (last attempts : ℕ) (w : Option (Result (Unit {0})))
    → condition (suc attempts) ≡ false
    → GoesOn condition last (suc attempts) w
    → GoesOn condition last attempts w
unfolding GoesOn
later_attempt condition last attempts w fails (inl (k, h, l, holds, before, e)) = inl (
  k,
  omega (arith, h),
  l,
  holds,
  (λ j i m. fails_from condition attempts j fails i (λ later. before j later m)),
  e,
)
later_attempt condition last attempts w fails (inr (none_holds, e)) =
    inr ((λ j i m. fails_from condition attempts j fails i (λ later. none_holds j later m)), e)

wait_from-GoesOn :
    (fuel : ℕ) (condition : ℕ → Bool) (last attempts : ℕ)
    → last ≡ fuel + attempts
    → GoesOn condition last attempts (wait_from fuel condition 0 attempts)
unfolding wait_from GoesOn
wait_from-GoesOn zero condition last attempts same =
    inr ((λ j h k. absurd (omega (arith, same, h, k))), refl)
wait_from-GoesOn (suc fuel) condition last attempts same =
    elim (Bool-cases (condition (suc attempts))) [
      | inl holds ↦ inl (
        suc attempts,
        omega arith,
        omega (arith, same),
        holds,
        (λ j h k. absurd (omega (arith, h, k))),
        rw (wait_from, holds) refl,
      )
      | inr fails ↦
          subst (λ (w : Option (Result (Unit {0}))). GoesOn condition last attempts w)
            (sym (rw (wait_from, fails, no_limit) refl))
            (later_attempt condition last attempts (wait_from fuel condition 0 (suc attempts)) fails
              (wait_from-GoesOn fuel condition last (suc attempts) (omega (arith, same))))
    ]
  where
    no_limit : suc attempts == 0 ≡ false
    no_limit = ground arith

-- With the limit 0 wait_for_condition never raises: within any number of rounds it has returned
-- after the first attempt at which the condition holds, and if the condition has held at none of
-- these attempts it goes on.
pub wait_for_condition-GoesOn :
    (fuel : ℕ) (condition : ℕ → Bool)
    → GoesOn condition fuel 0 (wait_for_condition fuel condition 0)
unfolding wait_for_condition
wait_for_condition-GoesOn fuel condition = wait_from-GoesOn fuel condition fuel 0 (omega arith)
