-- ===== src/Evaluation/Verdicts.antt =====
-- When the evaluators give PASS.
use lnst.Prelude.{
  ℕ, zero, suc, ◌+◌, ◌≡◌, ◌≢◌, ◌≤◌, ◌↔◌, refl, Bool, true, false, not, Option, none, some, List, [],
  ◌∷◌, arith, ltb, nat_beq, nat_beq_iff, All, Bool-cases, inl, inr, ◌⊎◌,
}
use lnst.Evaluation.{ResultType, fail, pass}
use lnst.Evaluation.Evaluators.{
  RatePingEvaluator, evaluate_rate, check_bound, Metric, value_of, any_zero, evaluate_metric,
  evaluate_flow,
}

-- A bound that is given holds.
abbrev pub Holds : (ℕ → Type 0) → Option ℕ → Type 0
Holds P none = Unit
Holds P (some bound) = P bound

check_bound_lem :
    (broken : ℕ → Bool) (P : ℕ → Type 0) (bound : Option ℕ) (status : ResultType)
    → ((b : ℕ) → (broken b ≡ false) ↔ P b)
    → (check_bound broken bound status ≡ pass) ↔ (Holds P bound × (status ≡ pass))
check_bound_lem broken P none status h = ((λ e. (tt, e)), (λ e. e.1))
check_bound_lem broken P (some b) status h = elim (Bool-cases (broken b)) [
  | inl bad ↦ rw bad ((λ e. absurd (cc)), (λ e. absurd (cc ((h b).1 e.0))))
  | inr good ↦ rw good ((λ e. ((h b).0 good, e)), (λ e. e.1))
]

-- The rate of a ping passes exactly if it is not below the least rate, not above the greatest and
-- equal to the rate, each where it is given.
pub evaluate_rate_iff :
    (e : RatePingEvaluator) (ping_rate : ℕ)
    → (evaluate_rate e (some ping_rate) ≡ pass) ↔ (
        Holds (λ b. ping_rate ≡ b) e.rate
        × Holds (λ b. ping_rate ≤ b) e.max_rate
        × Holds (λ b. b ≤ ping_rate) e.min_rate)
unfolding evaluate_rate
evaluate_rate_iff e ping_rate =
    let at_least =
      check_bound_lem (λ b. ltb ping_rate b) (λ b. b ≤ ping_rate) e.min_rate pass
        (λ b. ((λ h. ground arith), (λ h. ground arith))) in
    let at_most =
      check_bound_lem (λ b. ltb b ping_rate) (λ b. ping_rate ≤ b) e.max_rate
        (check_bound (λ b. ltb ping_rate b) e.min_rate pass)
        (λ b. ((λ h. ground arith), (λ h. ground arith))) in
    let exact =
      check_bound_lem (λ b. not (nat_beq ping_rate b)) (λ b. ping_rate ≡ b) e.rate
        (check_bound (λ b. ltb b ping_rate) e.max_rate
          (check_bound (λ b. ltb ping_rate b) e.min_rate pass))
        (λ b. (
          (λ h. ground (arith, h, nat_beq_iff ping_rate b)),
          (λ h. ground (arith, h, nat_beq_iff ping_rate b)),
        )) in
    (
      (λ h.
          ((exact.0 h).0, (at_most.0 (exact.0 h).1).0, (at_least.0 (at_most.0 (exact.0 h).1).1).0)),
      (λ h. exact.1 (h.0, at_most.1 (h.1, at_least.1 (h.2, refl)))),
    )

-- What the metric must be: absent, without intervals, or of a duration and with no interval at 0.
abbrev pub Flows : Option Metric → Type 0
Flows none = Unit
Flows (some m) = (m.intervals ≡ []) ⊎ ((m.duration ≢ 0) × All (λ v. v ≢ 0) m.intervals)

any_zero_cases :
    (vs : List ℕ)
    → ((any_zero vs ≡ true) × (All (λ v. v ≢ 0) vs → ⊥))
      ⊎ ((any_zero vs ≡ false) × All (λ v. v ≢ 0) vs)
any_zero_cases [] = inr (refl, tt)
any_zero_cases (v ∷ vs) = elim (Bool-cases (nat_beq v 0)) [
  | inl zero_here ↦ inl (rw zero_here refl, λ h. h.0 ((nat_beq_iff v 0).0 zero_here))
  | inr away ↦ elim (any_zero_cases vs) [
    | inl (found, h) ↦ inl (rw (away, found) refl, λ k. h k.1)
    | inr (clean, h) ↦
        inr (rw (away, clean) refl, ((λ e. absurd (cc (away, (nat_beq_iff v 0).1 e))), h))
  ]
]

metric_cases :
    (vs : List ℕ) (duration : ℕ) (result : ResultType)
    → ((evaluate_metric result (some (record { duration = duration; intervals = vs })) ≡ result)
        × Flows (some (record { duration = duration; intervals = vs })))
      ⊎ ((evaluate_metric result (some (record { duration = duration; intervals = vs })) ≡ fail)
          × (Flows (some (record { duration = duration; intervals = vs })) → ⊥))
unfolding evaluate_metric
metric_cases [] duration result = inl (refl, inl refl)
metric_cases (v ∷ vs) zero result = inr (refl, λ f. elim f [ inl e ↦ cc | inr g ↦ g.0 refl ])
metric_cases (v ∷ vs) (suc d) result = elim (any_zero_cases (v ∷ vs)) [
  | inl (found, h) ↦ inr (stopped found, λ f. elim f [ inl e ↦ cc | inr g ↦ h g.1 ])
  | inr (clean, h) ↦ inl (
    rw (evaluate_metric, lasts, ltb_pos v (value_of vs) h.0, clean) refl,
    inr ((λ e. absurd (omega (arith, e))), h),
  )
]
  where
    lasts : nat_beq (suc d) 0 ≡ false
    lasts = ground arith

    ltb_pos : (a b : ℕ) → a ≢ 0 → ltb 0 (a + b) ≡ true
    ltb_pos a b h = ground (arith, h)

    stopped :
        any_zero (v ∷ vs) ≡ true
        → evaluate_metric result (some (record { duration = suc d; intervals = v ∷ vs })) ≡ fail
    stopped found = elim (Bool-cases (ltb 0 (v + value_of vs))) [
      | inl more ↦ rw (evaluate_metric, lasts, more, found) refl
      | inr none_more ↦ rw (evaluate_metric, lasts, none_more) refl
    ]

evaluate_metric_lem :
    (m : Option Metric) (result : ResultType)
    → ((evaluate_metric result m ≡ result) × Flows m)
      ⊎ ((evaluate_metric result m ≡ fail) × (Flows m → ⊥))
unfolding evaluate_metric
evaluate_metric_lem none result = inl (refl, tt)
evaluate_metric_lem (some m) result = metric_cases m.intervals m.duration result

evaluate_flow_fail : (ms : List (Option Metric)) → evaluate_flow fail ms ≡ fail
unfolding evaluate_flow
evaluate_flow_fail [] = refl
evaluate_flow_fail (m ∷ ms) = elim (evaluate_metric_lem m fail) [
  | inl (same, f) ↦ rw same (evaluate_flow_fail ms)
  | inr (same, f) ↦ rw same (evaluate_flow_fail ms)
]

-- A flow passes exactly if each of its metrics is absent, has no intervals, or has a duration other
-- than 0 and no interval of the value 0.
pub evaluate_flow_iff : (ms : List (Option Metric)) → (evaluate_flow pass ms ≡ pass) ↔ All Flows ms
unfolding evaluate_flow
evaluate_flow_iff [] = ((λ h. tt), (λ h. refl))
evaluate_flow_iff (m ∷ ms) = elim (evaluate_metric_lem m pass) [
  | inl (good, flows) ↦
      rw good ((λ h. (flows, (evaluate_flow_iff ms).0 h)), (λ h. (evaluate_flow_iff ms).1 h.1))
  | inr (bad, stuck) ↦
      rw (bad, evaluate_flow_fail ms) ((λ h. absurd (cc)), (λ h. absurd (stuck h.0)))
]
