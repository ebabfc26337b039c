-- ===== src/Mapper/IfValid/Step.antt =====
-- One round of the loop of `_if_match` keeps the invariant, ends or costs, and raises nothing.
use lnst.Prelude.{
  ℕ, zero, suc, ◌+◌, ◌≤◌, ◌<◌, String, ◌≡◌, refl, ap, subst, true, false, Option, none, some, List,
  [], ◌∷◌, inl, inr, arith, string_eq, count, length, ==_self,
}
use native.Mathlib.Nat.{le_refl}
use lnst.Prelude.Exc.{ok}
use lnst.Prelude.Dict.{get, keys, get_of_count}
use lnst.Mapper.Defs.{
  Iface, Hosts, Labels, IfMatch, MachineMatch, remove, count-remove, length-remove, remove_total,
}
use lnst.Mapper.IfSearch.{
  IfState, IfStep, done, again, enter_label, settle_if, if_step, next_if, release_if, pop_if_stack,
}
use lnst.Mapper.IfValid.{
  Site, Filled, TopFilled, IfInv, Remaining, own, taken, if_ids, if_cost, stack_cost, level_cost,
  sub_cost,
}
use lnst.Mapper.IfValid.Release.{Released, release_lem}
use lnst.Mapper.IfValid.Next.{Chosen, next_if_lem}

-- A round changes nothing else of the machine's frame.
pub record SameFrame (m n : MachineMatch) : Type 0 where
  pub same_m_id : n.m_id ≡ m.m_id
  pub same_match : n.current_match ≡ m.current_match
  pub same_rest : n.remaining_matches ≡ m.remaining_matches
  pub same_virt : n.virt_matched ≡ m.virt_matched

abbrev pub size_of : Site → ℕ
size_of c = length (keys c.pool_m.interfaces)

-- What a round may end in.
abbrev pub StepOk : Site → IfState → IfStep → Type 0
StepOk c s (done true t) =
    IfInv c t
    × (t.top.unmatched_ifs ≡ [])
    × Filled c t.top.if_stack t.labels
    × SameFrame s.top t.top
    × (if_cost (size_of c) t < if_cost (size_of c) s)
StepOk c s (done false t) = (t ≡ s) × (s.top.if_stack ≡ [])
StepOk c s (again t) =
    IfInv c t × SameFrame s.top t.top × (if_cost (size_of c) t < if_cost (size_of c) s)

pub count-own-cong :
    (o : Option String) (u v : List String)
    → ((x : String) → count x u ≡ count x v)
    → (x : String) → count x (own o u) ≡ count x (own o v)
unfolding count
count-own-cong none u v e x = e x
count-own-cong (some c) u v e x = ground (arith, e x)

Remaining-cong :
    (u v : List String) (fs : List IfMatch)
    → ((x : String) → count x u ≡ count x v)
    → Remaining u fs
    → Remaining v fs
Remaining-cong u v [] e h = tt
Remaining-cong u v (f ∷ fs) e h =
    let same = count-own-cong f.current_match u v e in
    (
      λ x. subst (λ n. count x f.remaining_matches ≤ n) (same x) (h.0 x),
      Remaining-cong (own f.current_match u) (own f.current_match v) fs same h.1,
    )

pub level_cost_mono : (size k m n : ℕ) → m ≤ n → level_cost size k m ≤ level_cost size k n
unfolding level_cost
level_cost_mono size k m n h = grind arith

level_cost-suc :
    (size k rest : ℕ)
    → level_cost size k size + level_cost size (suc k) rest < level_cost size (suc k) (suc rest)
unfolding level_cost
level_cost-suc size k rest = omega arith

level_cost-next : (size k m : ℕ) → level_cost size k m < level_cost size k (suc m)
unfolding level_cost
level_cost-next size k m = omega arith

level_cost-suc_work :
    (size k m : ℕ) → level_cost size k (suc m) ≡ level_cost size k m + 1 + sub_cost size k
unfolding level_cost
level_cost-suc_work size k m = omega arith

last_cost : (size rest rem : ℕ) → rest < rem → level_cost size 0 rest < level_cost size 0 rem
unfolding level_cost
last_cost size rest rem h = omega arith

pub level_cost_lt : (size k m n : ℕ) → m < n → level_cost size k m < level_cost size k n
level_cost_lt size k m n h =
    omega (arith, level_cost-next size k m, level_cost_mono size k (suc m) n h)

-- One candidate less pays for all that can come above it.
pub level_cost_drop :
    (size k m n : ℕ) → m < n → level_cost size k m + 1 + sub_cost size k ≤ level_cost size k n
level_cost_drop size k m n h =
    omega (arith, level_cost-suc_work size k m, level_cost_mono size k (suc m) n h)

pub sub_cost_mono : (size m n : ℕ) → m ≤ n → sub_cost size m ≤ sub_cost size n
unfolding sub_cost
sub_cost_mono size zero n h = omega arith
sub_cost_mono size (suc m) zero h = absurd (omega arith)
sub_cost_mono size (suc m) (suc n) h = grind (arith, sub_cost_mono size m n (omega arith))

-- What a new level costs is paid by the candidate that was taken below it.
pub push_cost :
    (size k free rest rem : ℕ)
    → free ≤ size
    → rest < rem
    → level_cost size k free + level_cost size (suc k) rest < level_cost size (suc k) rem
push_cost size k free rest rem h less = omega (
  arith,
  level_cost_mono size k free size h,
  level_cost_mono size (suc k) (suc rest) rem less,
  level_cost-suc size k rest,
)

Filled-TopFilled : (c : Site) (fs : List IfMatch) (l : Labels) → Filled c fs l → TopFilled c fs l
Filled-TopFilled c [] l h = h
Filled-TopFilled c (f ∷ fs) l h = inr h

module _ (c : Site) (req_if : Iface) (s : IfState) (f : IfMatch) (fs : List IfMatch)
    (on_top : s.top.if_stack ≡ f ∷ fs) (i : IfInv c s)
    (is_req : get c.req_m.interfaces f.if_id ≡ some req_if) (free : List String) (labels : Labels)
    (r : Released c free labels f fs) where
  abbrev s' : IfState
  s' = record { top = record s.top { unmatched_pool_ifs = free }; labels = labels }

  abbrev Settled : Option (String × Iface) × List String → Type 0
  Settled found = (t : IfStep) × (settle_if req_if s' f fs found ≡ ok t) × StepOk c s t

  required_top :
      (x : String)
      → count x s.top.unmatched_ifs + count x (if_ids (f ∷ fs)) ≡ count x (keys c.req_m.interfaces)
  required_top x =
      subst
        (λ (l : List IfMatch).
          count x s.top.unmatched_ifs + count x (if_ids l) ≡ count x (keys c.req_m.interfaces))
        on_top (i.required x)

  settle_none : Settled (none, [])
  unfolding settle_if if_cost stack_cost if_ids count level_cost
  settle_none = (
    again (record s' { top = pop_if_stack s'.top f fs }),
    refl,
    (
      record {
        at_machine = i.at_machine;
        filled = Filled-TopFilled c fs labels r.filled;
        required = λ x. ground (arith, required_top x);
        in_pool = r.in_pool;
        pool_size = r.pool_size;
        remaining = r.remaining;
      },
      record { same_m_id = refl; same_match = refl; same_rest = refl; same_virt = refl },
      rw on_top (omega arith),
    ),
  )

  module _ (i_id : String) (p : Iface) (rest : List String)
      (ch : Chosen c.pool_m req_if labels f.remaining_matches i_id p rest) (free' : List String)
      (took : remove free i_id ≡ some free') where
    abbrev f' : IfMatch
    f' = record f { current_match = some i_id; remaining_matches = rest }

    abbrev labels' : Labels
    labels' = enter_label labels req_if p s.top.m_id f.if_id

    abbrev top' : MachineMatch
    top' = record s.top { if_stack = f' ∷ fs; unmatched_pool_ifs = free' }

    filled' : Filled c (f' ∷ fs) labels'
    filled' = (
      i_id,
      labels,
      record {
        req_if = req_if;
        pool_if = p;
        is_current = refl;
        is_required = is_req;
        is_in_pool = ch.found;
        fits = ch.fits;
        entered = ap (λ m. enter_label labels req_if p m f.if_id) i.at_machine;
      },
      r.filled,
    )

    in_pool' :
        (x : String)
        → count x free' + count x (taken (f' ∷ fs)) ≡ count x (keys c.pool_m.interfaces)
    unfolding taken count
    in_pool' x = ground (arith, r.in_pool x, count-remove x i_id free took)

    pool_size' : length free' + length (taken (f' ∷ fs)) ≡ length (keys c.pool_m.interfaces)
    unfolding taken
    pool_size' = omega (arith, r.pool_size, length-remove i_id free took)

    remaining' : Remaining free' (f' ∷ fs)
    unfolding count
    remaining' = (
      λ x. ground (arith, ch.less x, r.to_try x, count-remove x i_id free took),
      Remaining-cong free (i_id ∷ free') fs (λ x. ground (arith, count-remove x i_id free took))
          r.remaining,
    )

    settle_with : (us : List String) → s.top.unmatched_ifs ≡ us → Settled (some (i_id, p), rest)
    unfolding settle_if if_ids if_cost stack_cost count taken
    settle_with [] e = (
      done true (record { top = top'; labels = labels' }),
      ground (arith, e, took),
      (
        record {
          at_machine = i.at_machine;
          filled = inr filled';
          required = required_top;
          in_pool = in_pool';
          pool_size = pool_size';
          remaining = remaining';
        },
        e,
        filled',
        record { same_m_id = refl; same_match = refl; same_rest = refl; same_virt = refl },
        rw (on_top, e)
            (omega
              (arith, last_cost (size_of c) (length rest) (length f.remaining_matches) ch.shorter)),
      ),
    )
    settle_with (j ∷ js) e =
        let new : IfMatch = record { if_id = j; current_match = none; remaining_matches = free' } in
        (
          again (record {
            top = record top' { if_stack = new ∷ f' ∷ fs; unmatched_ifs = js };
            labels = labels';
          }),
          ground (arith, e, took),
          (
            record {
              at_machine = i.at_machine;
              filled = inl (refl, filled');
              required = λ x. ground (arith, e, required_top x);
              in_pool = in_pool';
              pool_size = pool_size';
              remaining = (λ x. le_refl _, remaining');
            },
            record { same_m_id = refl; same_match = refl; same_rest = refl; same_virt = refl },
            rw (on_top, e)
                (omega (
                  arith,
                  pool_size',
                  push_cost (size_of c) (length js) (length free') (length rest)
                      (length f.remaining_matches) (omega (arith, pool_size')) ch.shorter,
                )),
          ),
        )

-- Where the machine of the site is looked up.
pub record AtSite (mreqs pool : Hosts) (c : Site) (s : IfState) : Type 0 where
  pub target : String
  pub is_req_m : get mreqs c.m_id ≡ some c.req_m
  pub is_target : s.top.current_match ≡ some target
  pub is_pool_m : get pool target ≡ some c.pool_m

module _ (mreqs pool : Hosts) (c : Site) (s : IfState) (a : AtSite mreqs pool c s)
    (i : IfInv c s) where
  abbrev Stepped : Type 0
  Stepped = (t : IfStep) × (if_step mreqs pool s ≡ ok t) × StepOk c s t

  module _ (f : IfMatch) (fs : List IfMatch) (on_top : s.top.if_stack ≡ f ∷ fs) (req_if : Iface)
      (is_req : get c.req_m.interfaces f.if_id ≡ some req_if) (free : List String) (labels : Labels)
      (released : release_if c.pool_m req_if s f
        ≡ ok (record { top = record s.top { unmatched_pool_ifs = free }; labels = labels }))
      (r : Released c free labels f fs) where
    -- Every interface that remains to be tried is one of the pool machine.
    there :
        (x : String)
        → 0 < count x f.remaining_matches
        → (p : Iface) × (get c.pool_m.interfaces x ≡ some p)
    there x h = get_of_count c.pool_m.interfaces x (omega (arith, r.to_try x, r.in_pool x))

    step_from :
        (found : Option (String × Iface) × List String)
        → next_if c.pool_m req_if labels f.remaining_matches ≡ ok found
        → Settled c req_if s f fs on_top i is_req free labels r found
        → Stepped
    unfolding if_step
    step_from found e (t, eq, good) = (
      t,
      ground (
        arith, on_top, i.at_machine, a.is_req_m, a.is_target, a.is_pool_m, is_req, released, e, eq,
      ),
      good,
    )

    step_chosen : Stepped
    step_chosen = elim (next_if_lem c.pool_m req_if labels f.remaining_matches there) [
      | inl nothing ↦
          step_from (none, []) nothing (settle_none c req_if s f fs on_top i is_req free labels r)
      | inr (i_id, p, rest, eq, ch) ↦
          let took : (ys : List String) × (remove free i_id ≡ some ys) =
            remove_total i_id free (omega (arith, r.to_try i_id, ch.was_there)) in
          step_from (some (i_id, p), rest) eq
            (settle_with c req_if s f fs on_top i is_req free labels r i_id p rest ch took.0 took.1
              s.top.unmatched_ifs refl)
    ]

  step_on : (st : List IfMatch) → s.top.if_stack ≡ st → Stepped
  unfolding if_step if_ids count
  step_on [] e = (done false s, ground (arith, e), (refl, e))
  step_on (f ∷ fs) e =
      let is_req : (q : Iface) × (get c.req_m.interfaces f.if_id ≡ some q) =
        get_of_count c.req_m.interfaces f.if_id
          (ground (arith, i.required f.if_id, e, ==_self f.if_id)) in
      let (free, labels, released, r) = release_lem c is_req.0 s f fs e i is_req.1 in
      step_chosen f fs e is_req.0 is_req.1 free labels released r

  -- A round raises nothing; it ends the search or keeps the invariant at a lower cost.
  pub if_step_lem : Stepped
  if_step_lem = step_on s.top.if_stack refl
