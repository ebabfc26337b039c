-- ===== src/Evaluation/Evaluators.antt =====
-- The evaluators of lnst/RecipeCommon/Ping/Evaluators, and NonzeroFlowEvaluator and
-- MaxTimeTakenEvaluator of lnst/RecipeCommon/Perf/Evaluators, without the texts they report.
use lnst.Prelude.{
  ℕ, ◌+◌, Bool, true, false, not, Option, none, some, List, [], ◌∷◌, ltb, leb, nat_beq,
  if◌then◌else◌,
}
use lnst.Prelude.Exc.{Result, ok, err, value_error}
use lnst.Evaluation.{ResultType, fail, pass}

pub record RatePingEvaluator : Type 0 where
  pub min_rate : Option ℕ
  pub max_rate : Option ℕ
  pub rate : Option ℕ

-- RatePingEvaluator(...): it raises a plain Exception where no bound is given.
unfoldable pub rate_ping_evaluator : Option ℕ → Option ℕ → Option ℕ → Result RatePingEvaluator
rate_ping_evaluator none none none = err value_error
rate_ping_evaluator (some a) b c = ok (record { min_rate = some a; max_rate = b; rate = c })
rate_ping_evaluator none (some b) c = ok (record { min_rate = none; max_rate = some b; rate = c })
rate_ping_evaluator none none (some c) =
    ok (record { min_rate = none; max_rate = none; rate = some c })

-- One bound: the result so far, or FAIL.
abbrev pub check_bound : (ℕ → Bool) → Option ℕ → ResultType → ResultType
check_bound broken none status = status
check_bound broken (some bound) status = if broken bound then fail else status

-- RatePingEvaluator.evaluate_results; `none` is a result without a rate.
unfoldable pub evaluate_rate : RatePingEvaluator → Option ℕ → ResultType
evaluate_rate e none = fail
evaluate_rate e (some ping_rate) =
    check_bound (λ bound. not (nat_beq ping_rate bound)) e.rate
      (check_bound (λ bound. ltb bound ping_rate) e.max_rate
        (check_bound (λ bound. ltb ping_rate bound) e.min_rate pass))

-- ZeroPassPingEvaluator.evaluate_results, on `recv_pkts`
unfoldable pub evaluate_zero_pass : ℕ → ResultType
evaluate_zero_pass recv_packets = if ltb 0 recv_packets then fail else pass

-- MaxTimeTakenEvaluator._check_interval, in whole units of time
unfoldable pub check_interval : ℕ → ℕ → ResultType
check_interval max_time duration = if leb duration max_time then pass else fail

-- A metric that is there: its duration in whole units of time, and the values of its intervals,
-- which are counts.
pub record Metric : Type 0 where
  pub duration : ℕ
  pub intervals : List ℕ

-- `value` of the lists of intervals
abbrev pub value_of : List ℕ → ℕ
value_of [] = 0
value_of (v ∷ vs) = v + value_of vs

-- What `average` of a metric is: `inf`, or a value by a duration.
pub data Average : Type 0 where
  infinite : Average
  ratio : ℕ → ℕ → Average

-- PerfStatMixin.average
abbrev pub average : Metric → Average
average m = if nat_beq m.duration 0 then infinite else ratio (value_of m.intervals) m.duration

-- `average > 0` for what is not `inf`: a count by a duration that is more than 0
abbrev pub above_zero : ℕ → ℕ → Bool
above_zero total duration = ltb 0 total

-- `interval.value == 0` for an interval
abbrev pub any_zero : List ℕ → Bool
any_zero [] = false
any_zero (v ∷ vs) = let rest = any_zero vs in if nat_beq v 0 then true else rest

-- The body of the loop over the metrics: an absent or an empty one is passed over.
unfoldable pub evaluate_metric : ResultType → Option Metric → ResultType
evaluate_metric result none = result
evaluate_metric result (some m) = elim m.intervals [
  | [] ↦ result
  | v ∷ vs ↦ elim (average m) [
    | infinite ↦ fail
    | ratio total duration ↦
        if above_zero total duration then (if any_zero (v ∷ vs) then fail else result) else fail
  ]
]

-- NonzeroFlowEvaluator.evaluate_results for one flow
unfoldable pub evaluate_flow : ResultType → List (Option Metric) → ResultType
evaluate_flow result [] = result
evaluate_flow result (m ∷ ms) = evaluate_flow (evaluate_metric result m) ms
