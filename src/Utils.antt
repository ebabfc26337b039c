-- ===== src/Utils.antt =====
-- lnst/Common/Utils.py: wait_for_condition. The condition's answers are a function of the number of
-- the attempt, from 1 on.
pub mod Waits
pub mod Tests
use lnst.Prelude.{ℕ, zero, suc, Option, none, some, Bool, true, false, ◌==◌, nat_eq, if◌then◌else◌}
use lnst.Prelude.Exc.{Result, ok, err, timeout}

-- The loop, after so many attempts, on fuel: a round each.
unfoldable pub wait_from : ℕ → (ℕ → Bool) → ℕ → ℕ → Option (Result (Unit {0}))
wait_from zero condition limit attempts = none
wait_from (suc fuel) condition limit attempts =
    let rest = wait_from fuel condition limit (suc attempts) in
    if condition (suc attempts)
    then some (ok tt)
    else if suc attempts == limit
    then some (err timeout)
    else rest

unfoldable pub wait_for_condition : ℕ → (ℕ → Bool) → ℕ → Option (Result (Unit {0}))
wait_for_condition fuel condition limit = wait_from fuel condition limit 0
