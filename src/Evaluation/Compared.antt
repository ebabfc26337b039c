-- ===== src/Evaluation/Compared.antt =====
-- BaselineEvaluator: when the evaluation against a baseline passes.
use lnst.Prelude.{
  String, ◌≡◌, ◌↔◌, refl, subst, true, Option, none, some, List, [], ◌∷◌, ◌++◌, map, All,
  All-append, Option-cases, Bool-cases, inl, inr, ◌⊎◌,
}
use lnst.Prelude.Exc.{Result, ok, err, ◌>>=◌}
use lnst.Evaluation.{ResultType, fail, pass, warning, reduce_from, max_severity}
use lnst.Evaluation.Baseline.{
  MetricComparison, Results, Floats, result_averages_difference, judge,
  compare_metrics_with_threshold, compare_metrics, compare_group, group_result,
}

reduce_from_fail : (rs : List ResultType) → reduce_from fail rs ≡ fail
reduce_from_fail [] = refl
reduce_from_fail (r ∷ rs) = reduce_from_fail rs

reduce_from_warning :
    (rs : List ResultType) → (reduce_from warning rs ≡ fail) ⊎ (reduce_from warning rs ≡ warning)
reduce_from_warning [] = inr refl
reduce_from_warning (fail ∷ rs) = inl (reduce_from_fail rs)
reduce_from_warning (pass ∷ rs) = reduce_from_warning rs
reduce_from_warning (warning ∷ rs) = reduce_from_warning rs

module _ {D T : Type 0} where
  abbrev AllPass : List (MetricComparison D T) → Type 0
  AllPass cs = All (λ c. c.comparison_result ≡ pass) cs

  group_passes : (cs : List (MetricComparison D T)) → AllPass cs → group_result cs ≡ pass
  group_passes [] h = refl
  group_passes (c ∷ cs) h = rw (h.0) (group_passes cs h.1)

  passes_on :
      (r : ResultType) (cs : List (MetricComparison D T))
      → reduce_from (max_severity pass r) (map (λ c. c.comparison_result) cs) ≡ pass
      → (r ≡ pass) × (group_result cs ≡ pass)
  passes_on pass cs h = (refl, h)
  passes_on fail cs h = absurd (cc (h, reduce_from_fail (map (λ c. c.comparison_result) cs)))
  passes_on warning cs h = elim (reduce_from_warning (map (λ c. c.comparison_result) cs)) [
    | inl e ↦ absurd (cc (h, e))
    | inr e ↦ absurd (cc (h, e))
  ]

  AllPass-of : (cs : List (MetricComparison D T)) → group_result cs ≡ pass → AllPass cs
  AllPass-of [] h = tt
  AllPass-of (c ∷ cs) h = let p = passes_on c.comparison_result cs h in (p.0, AllPass-of cs p.1)

  abbrev Passing : Result (MetricComparison D T) → Type 0
  Passing o = (c : MetricComparison D T) × (o ≡ ok c) × (c.comparison_result ≡ pass)

  abbrev PassingAll : Result (List (MetricComparison D T)) → Type 0
  PassingAll o = (cs : List (MetricComparison D T)) × (o ≡ ok cs) × AllPass cs

  AllPass-split :
      (cs ds : List (MetricComparison D T)) → AllPass (cs ++ ds) → AllPass cs × AllPass ds
  AllPass-split [] ds h = (tt, h)
  AllPass-split (c ∷ cs) ds h = let r = AllPass-split cs ds h.1 in ((h.0, r.0), r.1)

  ok_injective : {xs ys : List (MetricComparison D T)} → ok xs ≡ ok ys → ys ≡ xs
  ok_injective e = cc

  moved : (cs ds : List (MetricComparison D T)) → ok cs ≡ ok ds → AllPass ds → AllPass cs
  moved cs ds e p = subst (λ (o : List (MetricComparison D T)). AllPass o) (ok_injective e) p

  Passing-cons :
      (o : Result (MetricComparison D T)) (os : Result (List (MetricComparison D T)))
      → PassingAll (o >>= λ c. os >>= λ cs. ok (c ∷ cs)) ↔ (Passing o × PassingAll os)
  Passing-cons (err e) os = ((λ h. absurd (cc (h.1))), (λ h. absurd (cc (h.0.1))))
  Passing-cons (ok c) (err e) = ((λ h. absurd (cc (h.1))), (λ h. absurd (cc (h.1.1))))
  Passing-cons (ok c) (ok cs) = (
    (λ h. let q = moved (c ∷ cs) h.0 h.1 h.2 in ((c, refl, q.0), (cs, refl, q.1))),
    (λ h. (c ∷ cs, refl, (same_one h.0.0 h.0.1 h.0.2, moved cs h.1.0 h.1.1 h.1.2))),
  )
    where
      same_one :
          (d : MetricComparison D T)
          → ok c ≡ ok d
          → d.comparison_result ≡ pass
          → c.comparison_result ≡ pass
      same_one d e p = cc

  Passing-append :
      (o os : Result (List (MetricComparison D T)))
      → PassingAll (o >>= λ cs. os >>= λ ds. ok (cs ++ ds)) ↔ (PassingAll o × PassingAll os)
  Passing-append (err e) os = ((λ h. absurd (cc (h.1))), (λ h. absurd (cc (h.0.1))))
  Passing-append (ok cs) (err e) = ((λ h. absurd (cc (h.1))), (λ h. absurd (cc (h.1.1))))
  Passing-append (ok cs) (ok ds) = (
    (λ h.
        let q = AllPass-split cs ds (moved (cs ++ ds) h.0 h.1 h.2) in
        ((cs, refl, q.0), (ds, refl, q.1))),
    (λ h. (
      cs ++ ds,
      refl,
      All-append (λ c. c.comparison_result ≡ pass) cs ds (moved cs h.0.0 h.0.1 h.0.2)
          (moved ds h.1.0 h.1.1 h.1.2),
    )),
  )

module _ {R D T : Type 0} (floats : Floats R D T)
    (get_threshold : Results R → String → Option T) where
  -- There are a baseline and a threshold, the metric is there in both, the
  -- division of the averages has a result, and the difference is allowed.
  abbrev pub Accepted : Results R → Option (Results R) → String → Type 0
  Accepted result none name = ⊥
  Accepted result (some b) name =
      (t : T) × (x : R) × (y : R) × (d : D) × (get_threshold b name ≡ some t)
      × (result.metric name ≡ some x)
      × (b.metric name ≡ some y)
      × (floats.percent x y ≡ some d)
      × (floats.is_within d t ≡ true)

  judged :
      (name : String) (t : T) (a b : Option R)
      → Passing (result_averages_difference floats a b >>= λ d. judge floats name t d) ↔ (
          (x : R) × (y : R) × (d : D) × (a ≡ some x)
          × (b ≡ some y)
          × (floats.percent x y ≡ some d)
          × (floats.is_within d t ≡ true))
  unfolding judge result_averages_difference
  judged name t none b = ((λ h. absurd (cc (h.1))), (λ h. absurd (cc (h.3))))
  judged name t (some x) none = ((λ h. absurd (cc (h.1))), (λ h. absurd (cc (h.4))))
  judged name t (some x) (some y) = elim (Option-cases (floats.percent x y)) [
    | inl by_zero ↦
        rw by_zero ((λ h. absurd (cc (h.1))), (λ h. absurd (cc (by_zero, h.3, h.4, h.5))))
    | inr (d, there) ↦ elim (Bool-cases (floats.is_within d t)) [
      | inl good ↦
          rw (there, good) ((λ h. (x, y, d, refl, refl, there, good)), (λ h. (_, refl, refl)))
      | inr bad ↦
          rw (there, bad)
            ((λ h. absurd (cc (h.1, h.2))), (λ h. absurd (cc (there, bad, h.3, h.4, h.5, h.6))))
    ]
  ]

  metric_iff :
      (result : Results R) (baseline : Option (Results R)) (name : String)
      → Passing (compare_metrics_with_threshold floats get_threshold result baseline name)
        ↔ Accepted result baseline name
  unfolding compare_metrics_with_threshold
  metric_iff result none name = ((λ h. cc (h.1, h.2)), (λ h. absurd h))
  metric_iff result (some b) name = elim (Option-cases (get_threshold b name)) [
    | inl missing ↦
        rw (compare_metrics_with_threshold, missing)
          ((λ h. absurd (cc (h.1, h.2))), (λ h. absurd (cc (h.4))))
    | inr (t, there) ↦
        let j = judged name t (result.metric name) (b.metric name) in
        rw (compare_metrics_with_threshold, there)
          (
            (λ h. let q = j.0 h in (t, q.0, q.1, q.2, refl, q.3, q.4, q.5, q.6)),
            (λ h. j.1 (h.1, h.2, h.3, h.5, h.6, h.7, cc (h.4, h.8))),
          )
  ]

  metrics_iff :
      (result : Results R) (baseline : Option (Results R)) (names : List String)
      → PassingAll (compare_metrics floats get_threshold result baseline names)
        ↔ All (λ name. Accepted result baseline name) names
  unfolding compare_metrics
  metrics_iff result baseline [] = ((λ h. tt), (λ h. ([], refl, tt)))
  metrics_iff result baseline (name ∷ names) =
      let p =
        Passing-cons (compare_metrics_with_threshold floats get_threshold result baseline name)
          (compare_metrics floats get_threshold result baseline names) in
      let m = metric_iff result baseline name in
      let r = metrics_iff result baseline names in
      ((λ h. (m.0 (p.0 h).0, r.0 (p.0 h).1)), (λ h. p.1 (m.1 h.0, r.1 h.1)))

  group_iff :
      (selected : Results R → List String) (get_baseline : Results R → Option (Results R))
      (rs : List (Results R))
      → PassingAll (compare_group floats get_threshold selected get_baseline rs)
        ↔ All (λ r. All (λ name. Accepted r (get_baseline r) name) (selected r)) rs
  unfolding compare_group
  group_iff selected get_baseline [] = ((λ h. tt), (λ h. ([], refl, tt)))
  group_iff selected get_baseline (r ∷ rs) =
      let p =
        Passing-append (compare_metrics floats get_threshold r (get_baseline r) (selected r))
          (compare_group floats get_threshold selected get_baseline rs) in
      let m = metrics_iff r (get_baseline r) (selected r) in
      let g = group_iff selected get_baseline rs in
      ((λ h. (m.0 (p.0 h).0, g.0 (p.0 h).1)), (λ h. p.1 (m.1 h.0, g.1 h.1)))

  -- The evaluation of a group ends without an exception and with PASS exactly if every metric that
  -- is evaluated has a baseline, a threshold and a value in both results, the average of the first
  -- can be divided by the baseline's, and the difference is within the threshold.
  pub compare_group_iff :
      (selected : Results R → List String) (get_baseline : Results R → Option (Results R))
      (rs : List (Results R))
      → ((cs : List (MetricComparison D T)) × (compare_group floats get_threshold selected
              get_baseline rs
            ≡ ok cs)
          × (group_result cs ≡ pass))
        ↔ All (λ r. All (λ name. Accepted r (get_baseline r) name) (selected r)) rs
  compare_group_iff selected get_baseline rs =
      let g = group_iff selected get_baseline rs in
      (
        (λ h. g.0 (h.0, h.1, AllPass-of h.0 h.2)),
        (λ h. let q = g.1 h in (q.0, q.1, group_passes q.0 q.2)),
      )
