-- ===== src/Evaluation/Severity.antt =====
-- RecipeRun.overall_result: the result of a run is the most severe of its results.
use lnst.Prelude.{ℕ, ◌≡◌, ◌≤◌, refl, true, false, List, [], ◌∷◌, arith, All, inl, inr, Bool-cases}
use lnst.Prelude.Exc.{ok, err, type_error}
use lnst.Evaluation.{ResultType, fail, pass, warning, reduce_from, reduce, among, overall_result}

-- How severe a result is, the order that the results are judged in.
abbrev pub severity : ResultType → ℕ
severity fail = 2
severity warning = 1
severity pass = 0

-- The level is among the results, and none of them is more severe.
pub record IsWorst (level : ResultType) (results : List ResultType) : Type 0 where
  pub there : among level results ≡ true
  pub worst : All (λ r. severity r ≤ severity level) results

All-below_fail : (rs : List ResultType) → All (λ r. severity r ≤ 2) rs
All-below_fail [] = tt
All-below_fail (fail ∷ rs) = (omega arith, All-below_fail rs)
All-below_fail (pass ∷ rs) = (omega arith, All-below_fail rs)
All-below_fail (warning ∷ rs) = (omega arith, All-below_fail rs)

All-below_warning : (rs : List ResultType) → among fail rs ≡ false → All (λ r. severity r ≤ 1) rs
All-below_warning [] h = tt
All-below_warning (fail ∷ rs) h = absurd (cc)
All-below_warning (pass ∷ rs) h = (omega arith, All-below_warning rs h)
All-below_warning (warning ∷ rs) h = (omega arith, All-below_warning rs h)

All-pass :
    (rs : List ResultType)
    → among fail rs ≡ false
    → among warning rs ≡ false
    → All (λ r. severity r ≤ 0) rs
All-pass [] h k = tt
All-pass (fail ∷ rs) h k = absurd (cc)
All-pass (pass ∷ rs) h k = (omega arith, All-pass rs h k)
All-pass (warning ∷ rs) h k = absurd (cc)

reduce_passes :
    (rs : List ResultType)
    → among fail rs ≡ false
    → among warning rs ≡ false
    → reduce_from pass rs ≡ pass
reduce_passes [] h k = refl
reduce_passes (fail ∷ rs) h k = absurd (cc)
reduce_passes (pass ∷ rs) h k = reduce_passes rs h k
reduce_passes (warning ∷ rs) h k = absurd (cc)

overall_pass :
    (r : ResultType) (rs : List ResultType)
    → among fail (r ∷ rs) ≡ false
    → among warning (r ∷ rs) ≡ false
    → (overall_result false (r ∷ rs) ≡ ok pass) × IsWorst pass (r ∷ rs)
unfolding overall_result reduce
overall_pass fail rs h k = absurd (cc)
overall_pass warning rs h k = absurd (cc)
overall_pass pass rs h k = (
  rw (h, k, reduce_passes rs h k) refl,
  record { there = refl; worst = All-pass (pass ∷ rs) h k },
)

-- A run that ended without an exception and has results has one of them as its result, and none of
-- its results is more severe, in the order FAIL, WARNING, PASS.
pub overall_result-IsWorst :
    (r : ResultType) (rs : List ResultType)
    → (level : ResultType) × (overall_result false (r ∷ rs) ≡ ok level) × IsWorst level (r ∷ rs)
unfolding overall_result
overall_result-IsWorst r rs = elim (Bool-cases (among fail (r ∷ rs))) [
  | inl fails ↦ (
    fail,
    rw (overall_result, fails) refl,
    record { there = fails; worst = All-below_fail (r ∷ rs) },
  )
  | inr none_fails ↦ elim (Bool-cases (among warning (r ∷ rs))) [
    | inl warns ↦ (
      warning,
      rw (overall_result, none_fails, warns) refl,
      record { there = warns; worst = All-below_warning (r ∷ rs) none_fails },
    )
    | inr none_warns ↦ let o = overall_pass r rs none_fails none_warns in (pass, o.0, o.1)
  ]
]

-- What overall_result gives in the remaining cases: FAIL for a run that an exception ended, and the
-- TypeError of `reduce` for a run without exception and without results.
pub overall_result_raised :
    (rs : List ResultType)
    → (overall_result true rs ≡ ok fail) × (overall_result false [] ≡ err type_error)
unfolding overall_result reduce
overall_result_raised rs = (ground arith, refl)
