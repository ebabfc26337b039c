-- ===== src/Evaluation/Tests.antt =====
-- The evaluation of results at concrete inputs.
use lnst.Prelude.{
  ℕ, String, nat_beq, ◌≡◌, ◌≤◌, ◌↔◌, refl, false, Option, none, some, List, [], ◌∷◌, leb, All, ◌-◌,
  ◌+◌, string_eq, ◌==◌, if◌then◌else◌,
}
use lnst.Prelude.Exc.{ok, err, type_error, zero_division}
use lnst.Evaluation.{ResultType, pass, warning, overall_result}
use lnst.Evaluation.Severity.{IsWorst, overall_result-IsWorst}
use lnst.Evaluation.Baseline.{
  MetricComparison, Results, Floats, compare_group, group_result, compare_metrics,
  compare_metrics_with_threshold, judge, result_averages_difference,
}
use lnst.Evaluation.Compared.{Accepted, compare_group_iff}
use lnst.Evaluation.Evaluators.{RatePingEvaluator, evaluate_rate, Metric, evaluate_flow}
use lnst.Evaluation.Verdicts.{Holds, Flows, evaluate_rate_iff, evaluate_flow_iff}

overall_result-IsWorst_example :
    (level : ResultType) × (overall_result false (pass ∷ warning ∷ pass ∷ []) ≡ ok level)
    × IsWorst level (pass ∷ warning ∷ pass ∷ [])
overall_result-IsWorst_example = overall_result-IsWorst pass (warning ∷ pass ∷ [])

abbrev between : RatePingEvaluator
between = record { min_rate = some 90; max_rate = some 100; rate = none }

evaluate_rate_iff_example :
    (evaluate_rate between (some 95) ≡ pass)
    ↔ (Holds (λ b. 95 ≡ b) none × Holds (λ b. 95 ≤ b) (some 100) × Holds (λ b. b ≤ 95) (some 90))
evaluate_rate_iff_example = evaluate_rate_iff between 95

abbrev two_metrics : List (Option Metric)
two_metrics = some (record { duration = 10; intervals = 5 ∷ 0 ∷ [] }) ∷ none ∷ []

evaluate_flow_iff_example : (evaluate_flow pass two_metrics ≡ pass) ↔ All Flows two_metrics
evaluate_flow_iff_example = evaluate_flow_iff two_metrics

-- Averages, differences and thresholds as numbers.
abbrev numbers : Floats ℕ ℕ ℕ
numbers = record {
  percent = λ a b. if nat_beq b 0 then none else some ((a - b) + (b - a));
  is_within = λ d t. leb d t;
}

abbrev flow : ℕ → Results ℕ
flow v = record {
  metrics = "cpu" ∷ "rate" ∷ [];
  metric = λ name. if name == "rate" then some v else none;
}

abbrev five : Results ℕ → String → Option ℕ
five baseline name = some 5

abbrev rate_only : Results ℕ → List String
rate_only r = "rate" ∷ []

abbrev hundred : Results ℕ → Option (Results ℕ)
hundred r = some (flow 100)

compare_group_iff_example :
    ((cs : List (MetricComparison ℕ ℕ)) × (compare_group numbers five rate_only hundred
          (flow 98 ∷ [])
        ≡ ok cs)
      × (group_result cs ≡ pass))
    ↔ All (λ r. All (λ name. Accepted numbers five r (hundred r) name) (rate_only r)) (flow 98 ∷ [])
compare_group_iff_example = compare_group_iff numbers five rate_only hundred (flow 98 ∷ [])

-- A baseline at 0: ZeroDivisionError.
zero_baseline_raises :
    compare_group numbers five rate_only (λ r. some (flow 0)) (flow 98 ∷ []) ≡ err zero_division
unfolding compare_group compare_metrics compare_metrics_with_threshold judge
    result_averages_difference
zero_baseline_raises = refl

-- A metric that the baseline lacks: TypeError.
missing_raises :
    compare_group numbers five (λ r. "cpu" ∷ []) hundred (flow 98 ∷ []) ≡ err type_error
unfolding compare_group compare_metrics compare_metrics_with_threshold judge
    result_averages_difference
missing_raises = refl
