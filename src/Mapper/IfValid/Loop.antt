-- ===== src/Mapper/IfValid/Loop.antt =====
-- The loop of `_if_match` ends within its cost, by a placement of every required interface or with
-- the stack empty.
use lnst.Prelude.{ℕ, zero, suc, ◌<◌, ◌≡◌, refl, Bool, true, false, some, [], arith, ◌∙◌}
use lnst.Prelude.Exc.{ok}
use lnst.Mapper.Defs.{Hosts, MachineMatch}
use lnst.Mapper.IfSearch.{IfState, IfStep, done, again, if_loop, if_step}
use lnst.Mapper.IfValid.{Site, Filled, IfInv, if_cost}
use lnst.Mapper.IfValid.Step.{SameFrame, StepOk, AtSite, size_of, if_step_lem}

SameFrame-trans : {m n o : MachineMatch} → SameFrame m n → SameFrame n o → SameFrame m o
SameFrame-trans p q = record {
  same_m_id = q.same_m_id ∙ p.same_m_id;
  same_match = q.same_match ∙ p.same_match;
  same_rest = q.same_rest ∙ p.same_rest;
  same_virt = q.same_virt ∙ p.same_virt;
}

-- How the search ends.
abbrev pub LoopOk : Site → IfState → Bool → IfState → Type 0
LoopOk c s true t =
    IfInv c t
    × (t.top.unmatched_ifs ≡ [])
    × Filled c t.top.if_stack t.labels
    × SameFrame s.top t.top
    × (if_cost (size_of c) t < if_cost (size_of c) s)
LoopOk c s false t = IfInv c t × (t.top.if_stack ≡ []) × SameFrame s.top t.top

module _ (mreqs pool : Hosts) (c : Site) where
  abbrev pub Looped : ℕ → IfState → Type 0
  Looped fuel s =
      (b : Bool) × (t : IfState) × (if_loop fuel mreqs pool s ≡ some (ok (b, t))) × LoopOk c s b t

  later_ok :
      (s t : IfState) (b : Bool) (u : IfState)
      → SameFrame s.top t.top
      → if_cost (size_of c) t < if_cost (size_of c) s
      → LoopOk c t b u
      → LoopOk c s b u
  later_ok s t true u same less (i, e, p, frame, cost) =
      (i, e, p, SameFrame-trans same frame, omega arith)
  later_ok s t false u same less (i, e, frame) = (i, e, SameFrame-trans same frame)

  AtSite-again :
      (s t : IfState) → SameFrame s.top t.top → AtSite mreqs pool c s → AtSite mreqs pool c t
  AtSite-again s t same a = record {
    target = a.target;
    is_req_m = a.is_req_m;
    is_target = same.same_match ∙ a.is_target;
    is_pool_m = a.is_pool_m;
  }

  loop_from :
      (fuel : ℕ) (s : IfState) (r : IfStep)
      → ((t : IfState)
          → AtSite mreqs pool c t
          → IfInv c t
          → if_cost (size_of c) t < fuel
          → Looped fuel t)
      → if_cost (size_of c) s < suc fuel
      → AtSite mreqs pool c s
      → IfInv c s
      → if_step mreqs pool s ≡ ok r
      → StepOk c s r
      → Looped (suc fuel) s
  unfolding if_loop
  loop_from fuel s (done true t) ih less a i e good = (true, t, ground (arith, e), good)
  loop_from fuel s (done false t) ih less a i e (same, empty) = (
    false,
    s,
    ground (arith, e, same),
    (i, empty, record { same_m_id = refl; same_match = refl; same_rest = refl; same_virt = refl }),
  )
  loop_from fuel s (again t) ih less a i e (j, same, cost) =
      let (b, u, eq, good) = ih t (AtSite-again s t same a) j (omega arith) in
      (b, u, ground (arith, e, eq), later_ok s t b u same cost good)

  -- With fuel for its cost the search ends and raises nothing.
  pub if_loop_lem :
      (fuel : ℕ) (s : IfState)
      → AtSite mreqs pool c s
      → IfInv c s
      → if_cost (size_of c) s < fuel
      → Looped fuel s
  if_loop_lem zero s a i less = absurd (omega arith)
  if_loop_lem (suc fuel) s a i less =
      let (r, e, good) = if_step_lem mreqs pool c s a i in
      loop_from fuel s r (if_loop_lem fuel) less a i e good
