-- ===== src/Mapper/IfSearch.antt =====
-- lnst/Controller/MachineMapper.py: `_if_match`, the search for the interfaces of the machine
-- on top of the stack.
use lnst.Prelude.{
  ℕ, zero, suc, String, Bool, true, false, ◌&&◌, Option, none, some, List, [], ◌∷◌, if◌then◌else◌,
  string_eq, ◌==◌,
}
use lnst.Prelude.Exc.{Result, ok, err, key_error, index_error, value_error, ◌>>=◌, or_raise}
use lnst.Prelude.Dict.{get, has, put, del}
use lnst.Mapper.Defs.{Iface, Host, Hosts, Owner, Labels, IfMatch, MachineMatch, remove}
use lnst.Mapper.Compat.{check_interface_compatibility}

-- What `_if_match` changes: the top of the machine stack and the label mapping.
pub record IfState : Type 0 where
  pub top : MachineMatch
  pub labels : Labels

-- _push_if_stack
unfoldable pub push_if_stack : MachineMatch → Result MachineMatch
push_if_stack m = elim m.unmatched_ifs [
  | [] ↦ err index_error
  | i ∷ rest ↦ ok (record m {
    if_stack =
        record { if_id = i; current_match = none; remaining_matches = m.unmatched_pool_ifs }
        ∷ m.if_stack;
    unmatched_ifs = rest;
  })
]

-- _pop_if_stack, with the stack's top and the rest below it
unfoldable pub pop_if_stack : MachineMatch → IfMatch → List IfMatch → MachineMatch
pop_if_stack m f below = record m { if_stack = below; unmatched_ifs = f.if_id ∷ m.unmatched_ifs }

abbrev pub same_owner : Owner → Owner → Bool
same_owner a b = a.pool_label == b.pool_label && (a.m_id == b.m_id && a.if_id == b.if_id)

-- The current match of the top interface goes back, and the label that it introduced with it.
unfoldable pub release_if : Host → Iface → IfState → IfMatch → Result IfState
release_if pool_m req_if s f = elim f.current_match [
  | none ↦ ok s
  | some cur ↦ do
    pool_if ← or_raise (get pool_m.interfaces cur) key_error
    owner ← or_raise (get s.labels req_if.network) key_error
    let mine : Owner = record { pool_label = pool_if.network; m_id = s.top.m_id; if_id = f.if_id }
    ok (record {
      top = record s.top { unmatched_pool_ifs = cur ∷ s.top.unmatched_pool_ifs };
      labels = if same_owner owner mine then del s.labels req_if.network else s.labels;
    })
]

-- The loop over `remaining_matches`: the first compatible interface and what remains behind it.
unfoldable pub next_if :
    Host → Iface → Labels → List String → Result (Option (String × Iface) × List String)
next_if pool_m req_if labels [] = ok (none, [])
next_if pool_m req_if labels (i ∷ rest) =
    let later = next_if pool_m req_if labels rest in
    elim (get pool_m.interfaces i) [
      | none ↦ err key_error
      | some pool_if ↦
          if check_interface_compatibility labels req_if pool_if
          then ok (some (i, pool_if), rest)
          else later
    ]

-- The label of a match is entered unless the required label has an entry.
unfoldable pub enter_label : Labels → Iface → Iface → String → String → Labels
enter_label labels req_if pool_if m_id if_id =
    if has labels req_if.network
    then labels
    else put labels req_if.network
        (record { pool_label = pool_if.network; m_id = m_id; if_id = if_id })

pub data IfStep : Type 0 where
  done : Bool → IfState → IfStep
  again : IfState → IfStep

-- The body's end, on the choice of the inner loop.
unfoldable pub settle_if :
    Iface → IfState → IfMatch → List IfMatch → Option (String × Iface) × List String → Result IfStep
unfolding push_if_stack pop_if_stack enter_label
settle_if req_if s f below (none, rest) = ok (again (record s { top = pop_if_stack s.top f below }))
settle_if req_if s f below (some (i, pool_if), rest) = do
  free ← or_raise (remove s.top.unmatched_pool_ifs i) value_error
  let f' : IfMatch = record f { current_match = some i; remaining_matches = rest }
  let top' : MachineMatch = record s.top { if_stack = f' ∷ below; unmatched_pool_ifs = free }
  let labels' : Labels = enter_label s.labels req_if pool_if s.top.m_id f.if_id
  elim s.top.unmatched_ifs [
    | [] ↦ ok (done true (record { top = top'; labels = labels' }))
    | i ∷ r ↦ do m ← push_if_stack top'; ok (again (record { top = m; labels = labels' }))
  ]

-- One round of the `while len(if_stack) > 0` loop.
unfoldable pub if_step : Hosts → Hosts → IfState → Result IfStep
unfolding release_if next_if settle_if
if_step mreqs pool s = elim s.top.if_stack [
  | [] ↦ ok (done false s)
  | f ∷ below ↦ do
    req_m ← or_raise (get mreqs s.top.m_id) key_error
    target ← or_raise s.top.current_match key_error
    pool_m ← or_raise (get pool target) key_error
    req_if ← or_raise (get req_m.interfaces f.if_id) key_error
    s' ← release_if pool_m req_if s f
    found ← next_if pool_m req_if s'.labels f.remaining_matches
    settle_if req_if s' f below found
]

-- The loop; `none` when the fuel is spent.
unfoldable pub if_loop : ℕ → Hosts → Hosts → IfState → Option (Result (Bool × IfState))
if_loop zero mreqs pool s = none
if_loop (suc fuel) mreqs pool s = elim (if_step mreqs pool s) [
  | err e ↦ some (err e)
  | ok (done b t) ↦ some (ok (b, t))
  | ok (again t) ↦ if_loop fuel mreqs pool t
]

-- `_if_match` with virtual machines: only the machine itself is matched.
unfoldable pub virt_match : IfState → Bool × IfState
virt_match s = elim s.top.current_match [
  | none ↦ (false, s)
  | some m ↦ (true, record s { top = record s.top { virt_matched = true } })
]

-- _if_match
unfoldable pub if_match : ℕ → Bool → Hosts → Hosts → IfState → Option (Result (Bool × IfState))
unfolding virt_match
if_match fuel virtual mreqs pool s = elim virtual [
  | true ↦ some (ok (virt_match s))
  | false ↦ if_loop fuel mreqs pool s
]
