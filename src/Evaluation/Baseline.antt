-- ===== src/Evaluation/Baseline.antt =====
-- lnst/RecipeCommon/Perf/Evaluators/BaselineEvaluator.py, for any evaluator that gives baselines
-- and thresholds. The averages and their difference are floating point numbers: they are arguments.
use lnst.Prelude.{
  String, Bool, Option, none, some, List, [], ◌∷◌, ◌++◌, map, string_eq, elem, if◌then◌else◌,
}
use lnst.Prelude.Exc.{Result, ok, err, or_raise, type_error, zero_division, ◌>>=◌}
use lnst.Evaluation.{ResultType, fail, pass, reduce_from}

-- What MetricComparison holds of the outcome.
pub record MetricComparison (D T : Type 0) : Type 0 where
  pub metric_name : String
  pub threshold : Option T
  pub difference : Option D
  pub comparison_result : ResultType

-- The results of a measurement: the names of its metrics, and the value of each, `none` for None.
pub record Results (R : Type 0) : Type 0 where
  pub metrics : List String
  pub metric : String → Option R

-- The float operations that are used: `(a.average / b.average) * 100 - 100`, `none` where it divides
-- by 0, and `abs(d) <= t`.
pub record Floats (R D T : Type 0) : Type 0 where
  pub percent : R → R → Option D
  pub is_within : D → T → Bool

module _ {R D T : Type 0} (floats : Floats R D T) where
  -- result_averages_difference
  unfoldable pub result_averages_difference : Option R → Option R → Result (Option D)
  result_averages_difference none b = ok none
  result_averages_difference (some a) none = ok none
  result_averages_difference (some a) (some b) =
      or_raise (floats.percent a b) zero_division >>= λ d. ok (some d)

  -- The third branch: where there is no difference, `diff >= 0` raises TypeError.
  unfoldable pub judge : String → T → Option D → Result (MetricComparison D T)
  judge name t none = err type_error
  judge name t (some d) = ok (record {
    metric_name = name;
    threshold = some t;
    difference = some d;
    comparison_result = if floats.is_within d t then pass else fail;
  })

  -- `get_threshold` is asked only where there is a baseline.
  unfoldable pub compare_metrics_with_threshold :
      (Results R → String → Option T)
      → Results R
      → Option (Results R)
      → String
      → Result (MetricComparison D T)
  compare_metrics_with_threshold get_threshold result none name =
      ok (record {
        metric_name = name;
        threshold = none;
        difference = none;
        comparison_result = fail;
      })
  compare_metrics_with_threshold get_threshold result (some baseline) name =
      elim (get_threshold baseline name) [
        | none ↦ ok (record {
          metric_name = name;
          threshold = none;
          difference = none;
          comparison_result = fail;
        })
        | some t ↦ result_averages_difference (result.metric name) (baseline.metric name) >>= λ d.
            judge name t d
      ]

  -- The loop of compare_result_with_baseline.
  unfoldable pub compare_metrics :
      (Results R → String → Option T)
      → Results R
      → Option (Results R)
      → List String
      → Result (List (MetricComparison D T))
  compare_metrics get_threshold result baseline [] = ok []
  compare_metrics get_threshold result baseline (name ∷ names) =
      compare_metrics_with_threshold get_threshold result baseline name >>= λ c.
      compare_metrics get_threshold result baseline names >>= λ cs. ok (c ∷ cs)

  -- The loop of evaluate_group_results over `zip(results, baselines)`.
  unfoldable pub compare_group :
      (Results R → String → Option T)
      → (Results R → List String)
      → (Results R → Option (Results R))
      → List (Results R)
      → Result (List (MetricComparison D T))
  compare_group get_threshold selected get_baseline [] = ok []
  compare_group get_threshold selected get_baseline (r ∷ rs) =
      compare_metrics get_threshold r (get_baseline r) (selected r) >>= λ cs.
      compare_group get_threshold selected get_baseline rs >>= λ more. ok (cs ++ more)

-- The metrics of a result that are named; an empty list of names stands for all.
chosen : List String → List String → List String
chosen names [] = []
chosen names (m ∷ ms) = let rest = chosen names ms in if elem m names then m ∷ rest else rest

unfoldable pub metrics_to_evaluate : {R : Type 0} → List String → Results R → List String
unfolding chosen
metrics_to_evaluate [] result = result.metrics
metrics_to_evaluate (n ∷ ns) result = chosen (n ∷ ns) result.metrics

-- BaselineEvaluationResult.result
abbrev pub group_result : {D T : Type 0} → List (MetricComparison D T) → ResultType
group_result cs = reduce_from pass (map (λ c. c.comparison_result) cs)
