-- ===== src/Utils/Tests.antt =====
-- Waiting at concrete inputs.
use lnst.Prelude.{ℕ, ◌≡◌, refl, some, Bool, nat_beq, leb, arith}
use lnst.Prelude.Exc.{ok, err, timeout}
use lnst.Utils.{wait_from, wait_for_condition}
use lnst.Utils.Waits.{Ends, wait_for_condition-Ends, GoesOn, wait_for_condition-GoesOn}

-- The condition holds at the third attempt.
abbrev third : ℕ → Bool
third k = nat_beq k 3

in_time : wait_for_condition 5 third 5 ≡ some (ok tt)
unfolding wait_for_condition wait_from
in_time = refl

too_late : wait_for_condition 5 third 2 ≡ some (err timeout)
unfolding wait_for_condition wait_from
too_late = refl

wait_for_condition-Ends_example : Ends third 5 0 (wait_for_condition 5 third 5)
wait_for_condition-Ends_example = wait_for_condition-Ends 5 third 5 (omega arith) (omega arith)

wait_for_condition-GoesOn_example :
    GoesOn (λ k. leb 3 k) 9 0 (wait_for_condition 9 (λ k. leb 3 k) 0)
wait_for_condition-GoesOn_example = wait_for_condition-GoesOn 9 (λ k. leb 3 k)
