-- ===== src/Mapper/Search.antt =====
-- lnst/Controller/MachineMapper.py: `reset_match_state`, `_match` and the machine stack.
use lnst.Prelude.{
  ℕ, zero, suc, String, Bool, true, false, ◌&&◌, Option, none, some, List, [], ◌∷◌, if◌then◌else◌,
  string_eq,
}
use mathlib.Core.List.{reverse}
use lnst.Prelude.Exc.{Result, ok, err, key_error, index_error, value_error, ◌>>=◌, or_raise}
use lnst.Prelude.Dict.{get, has, keys}
use lnst.Mapper.Defs.{Hosts, MachineMatch, Mapper, sorted_top, remove}
use lnst.Mapper.Compat.{check_machine_compatibility}
use lnst.Mapper.IfSearch.{push_if_stack, if_match}

-- The test on a pool machine when `_unmatched_pool_machines` is filled.
usable : Bool → Hosts → String → Bool
usable false pool p_id = true
usable true pool p_id = elim (get pool p_id) [
  | none ↦ false
  | some p ↦ has p.params "libvirt_domain"
]

unfoldable pub usable_ids : Bool → Hosts → List String → List String
unfolding usable
usable_ids virtual pool [] = []
usable_ids virtual pool (p ∷ ps) =
    let rest = usable_ids virtual pool ps in if usable virtual pool p then p ∷ rest else rest

-- The loop that fills `_unmatched_pool_machines`, in `reset_match_state` and in `_match`.
unfoldable pub pool_machines : Bool → Hosts → List String
unfolding usable_ids
pool_machines virtual pool = usable_ids virtual pool (sorted_top (keys pool))

-- _push_machine_stack
unfoldable pub push_machine_stack : Mapper → Result Mapper
push_machine_stack s = elim s.unmatched_req_machines [
  | [] ↦ err index_error
  | m ∷ rest ↦ do
    machine ← or_raise (get s.mreqs m) key_error
    let frame : MachineMatch = record {
      m_id = m;
      current_match = none;
      remaining_matches = s.unmatched_pool_machines;
      if_stack = [];
      unmatched_ifs = sorted_top (keys machine.interfaces);
      unmatched_pool_ifs = [];
      virt_matched = false;
    }
    ok (record s { unmatched_req_machines = rest; machine_stack = frame ∷ s.machine_stack })
]

-- _pop_machine_stack, with the stack's top and the rest below it
unfoldable pub pop_machine_stack : Mapper → MachineMatch → List MachineMatch → Mapper
pop_machine_stack s top below = record s {
  unmatched_req_machines = top.m_id ∷ s.unmatched_req_machines;
  machine_stack = below;
}

-- `if len(self._pool) > 0 and len(self._mreqs) > 0: self._push_machine_stack()`
unfoldable pub push_first : Mapper → Result Mapper
unfolding push_machine_stack
push_first s = elim s.pool [
  | [] ↦ ok s
  | p ∷ ps ↦ elim s.mreqs [ [] ↦ ok s | q ∷ qs ↦ push_machine_stack s ]
]

-- The pool of that name becomes the current one, and all its usable machines are free.
unfoldable pub enter_pool : Mapper → String → List String → Result Mapper
unfolding pool_machines
enter_pool s name rest = do
  pool ← or_raise (get s.pools name) key_error
  ok (record s {
    pool_stack = rest;
    pool_name = some name;
    pool = pool;
    unmatched_pool_machines = pool_machines s.virtual_matching pool;
  })

unfoldable pub reset_match_state : Mapper → Result Mapper
reset_match_state s = do
  let s₁ : Mapper = record s {
    net_label_mapping = [];
    machine_stack = [];
    unmatched_req_machines = sorted_top (keys s.mreqs);
    pool_stack = [];
  }
  let stack : List String = reverse (keys s.pools)
  s₂ ← elim stack [
    | [] ↦ ok (record s₁ { unmatched_pool_machines = pool_machines s.virtual_matching s.pool })
    | name ∷ rest ↦ enter_pool s₁ name rest
  ]
  push_first s₂

-- At the head of the loop: a virtual match that was returned goes back.
unfoldable pub release_virtual : Mapper → MachineMatch → Mapper × MachineMatch
release_virtual s top =
    if s.virtual_matching && top.virt_matched
    then elim top.current_match [
      | none ↦ (s, record top { virt_matched = false })
      | some cur ↦ (
        record s { unmatched_pool_machines = cur ∷ s.unmatched_pool_machines },
        record top { current_match = none; virt_matched = false },
      )
    ]
    else (s, top)

-- The loop over `remaining_matches`: the first compatible machine and what remains behind it.
unfoldable pub next_machine :
    Hosts → Hosts → String → List String → Result (Option String × List String)
unfolding check_machine_compatibility
next_machine mreqs pool m_id [] = ok (none, [])
next_machine mreqs pool m_id (p ∷ rest) =
    let later = next_machine mreqs pool m_id rest in
    elim (check_machine_compatibility mreqs pool m_id p) [
      | err e ↦ err e
      | ok true ↦ ok (some p, rest)
      | ok false ↦ later
    ]

pub data Step : Type 0 where
  done : Bool → Mapper → Step
  again : Mapper → Step

-- The stack is empty: the next pool, if one is left.
unfoldable pub next_pool : Mapper → Result Step
unfolding enter_pool push_first
next_pool s = elim s.machine_stack [
  | m ∷ ms ↦ ok (again s)
  | [] ↦ elim s.pool_stack [
    | [] ↦ ok (again s)
    | name ∷ rest ↦ do t ← enter_pool s name rest; u ← push_first t; ok (again u)
  ]
]

-- `_if_match` failed, and the choice of the loop over `remaining_matches` is known.
unfoldable pub settle_machine :
    Mapper → MachineMatch → List MachineMatch → Option String × List String → Result Step
unfolding next_pool pop_machine_stack push_if_stack
settle_machine s top below (none, rest) = next_pool (pop_machine_stack s top below)
settle_machine s top below (some p, rest) = do
  pool_m ← or_raise (get s.pool p) key_error
  free ← or_raise (remove s.unmatched_pool_machines p) value_error
  let mapped : MachineMatch = record top {
    current_match = some p;
    remaining_matches = rest;
    unmatched_pool_ifs = sorted_top (keys pool_m.interfaces);
    if_stack = [];
  }
  top' ← if s.virtual_matching then ok mapped else push_if_stack mapped
  ok (again (record s { unmatched_pool_machines = free; machine_stack = top' ∷ below }))

-- The pool machine of the top frame goes back.
unfoldable pub unmap_machine : Mapper → MachineMatch → Mapper
unmap_machine s top = elim top.current_match [
  | none ↦ s
  | some cur ↦ record s { unmatched_pool_machines = cur ∷ s.unmatched_pool_machines }
]

-- The branch after a failed `_if_match`: another machine of the pool for the same requirement.
unfoldable pub retry_machine : Mapper → MachineMatch → List MachineMatch → Result Step
unfolding unmap_machine next_machine settle_machine
retry_machine s top below = do
  let s' : Mapper = unmap_machine s top
  found ← next_machine s.mreqs s.pool top.m_id top.remaining_matches
  settle_machine s' (record top { current_match = none }) below found

-- The branch after a successful `_if_match`.
unfoldable pub next_requirement : Mapper → Result Step
unfolding push_machine_stack
next_requirement s = elim s.unmatched_req_machines [
  | [] ↦ ok (done true s)
  | r ∷ rs ↦ do t ← push_machine_stack s; ok (again t)
]

-- One round of the `while len(self._machine_stack) > 0` loop.
unfoldable pub match_step : ℕ → Mapper → Option (Result Step)
unfolding release_virtual
match_step fuel s = elim s.machine_stack [
  | [] ↦ some (ok (done false s))
  | top ∷ below ↦
      let (s', top') = release_virtual s top in
      elim (if_match fuel s.virtual_matching s.mreqs s.pool
        (record { top = top'; labels = s.net_label_mapping })) [
          | none ↦ none
          | some (err e) ↦ some (err e)
          | some (ok (true, t)) ↦ some (
              next_requirement
                (record s' { machine_stack = t.top ∷ below; net_label_mapping = t.labels }))
          | some (ok (false, t)) ↦ some (
              retry_machine
                (record s' { machine_stack = t.top ∷ below; net_label_mapping = t.labels }) t.top
                below)
        ]
]

-- _match; `fuel` bounds the rounds of this loop and of the one in `_if_match`.
unfoldable pub match_loop : ℕ → ℕ → Mapper → Option (Result (Bool × Mapper))
match_loop if_fuel zero s = none
match_loop if_fuel (suc fuel) s = elim (match_step if_fuel s) [
  | none ↦ none
  | some (err e) ↦ some (err e)
  | some (ok (done b t)) ↦ some (ok (b, t))
  | some (ok (again t)) ↦ match_loop if_fuel fuel t
]
