-- ===== src/Mapper/Valid.antt =====
-- The invariant of the search over machines (`_match` of MachineMapper.py): what the machine
-- stack, the free machines, the open requirements and the label mapping say of each other.
pub mod Push
pub mod Next
pub mod Pools
pub mod Retry
pub mod Map
pub mod Round
pub mod Loop
pub mod Reset
use lnst.Prelude.{
  ℕ, zero, suc, ◌+◌, ◌*◌, ◌≤◌, ◌<◌, String, ◌≡◌, Bool, true, false, Option, none, some, List, [],
  ◌∷◌, ◌⊎◌, string_eq, count, length, All,
}
use lnst.Prelude.Dict.{Dict, get, keys, IsDistinct}
use lnst.Mapper.Defs.{Iface, Host, Hosts, Labels, IfMatch, MachineMatch, Mapper}
use lnst.Mapper.Compat.{params_fit}
use lnst.Mapper.IfSearch.{IfState}
use lnst.Mapper.IfValid.{Site, Filled, IfInv, own, if_cost, sub_cost, level_cost}
use lnst.Mapper.IfValid.Step.{AtSite, size_of}

-- The requirements: dictionaries have distinct keys, and every host requires an interface.
pub record ReqsOk (mreqs : Hosts) : Type 0 where
  pub distinct : IsDistinct mreqs
  pub ifs_distinct : (k : String) (h : Host) → get mreqs k ≡ some h → IsDistinct h.interfaces
  pub has_ifs : (k : String) (h : Host) → get mreqs k ≡ some h → 0 < length (keys h.interfaces)

-- Every interface of a pool machine has a MAC address.
abbrev pub HasHwaddrs : Host → Type 0
HasHwaddrs h =
    (k : String) (p : Iface)
    → get h.interfaces k ≡ some p
    → (v : String) × (get p.params "hwaddr" ≡ some v)

-- Every machine of a pool has a hostname, and its interfaces have MAC addresses.
pub record IsNamed (pool : Hosts) : Type 0 where
  pub hostname :
      (k : String) (h : Host)
      → get pool k ≡ some h
      → (v : String) × (get h.params "hostname" ≡ some v)
  pub hwaddrs : (k : String) (h : Host) → get pool k ≡ some h → HasHwaddrs h

-- A pool: machines are named, dictionaries have distinct keys, and `max_ifs` and `max_machines` bound the search in it.
pub record PoolOk (mreqs : Hosts) (max_ifs max_machines : ℕ) (pool : Hosts) : Type 0 where
  pub named : IsNamed pool
  pub distinct : IsDistinct pool
  pub ifs_distinct : (k : String) (h : Host) → get pool k ≡ some h → IsDistinct h.interfaces
  pub machines : length (keys pool) ≤ max_machines
  pub ifs :
      (k j : String) (r p : Host)
      → get mreqs k ≡ some r
      → get pool j ≡ some p
      → sub_cost (length (keys p.interfaces)) (length (keys r.interfaces)) ≤ max_ifs

-- The required machines on a stack.
unfoldable pub m_ids : List MachineMatch → List String
m_ids [] = []
m_ids (m ∷ ms) = m.m_id ∷ m_ids ms

-- The pool machines that are taken on a stack.
unfoldable pub m_taken : List MachineMatch → List String
m_taken [] = []
m_taken (m ∷ ms) = own m.current_match (m_taken ms)

-- What remains to be tried at a level is free there, once the levels above are given up.
abbrev pub MRemaining : List String → List MachineMatch → Type 0
MRemaining free [] = Unit
MRemaining free (m ∷ ms) =
    ((x : String) → count x m.remaining_matches ≤ count x (own m.current_match free))
    × MRemaining (own m.current_match free) ms

abbrev pub at : MachineMatch → Labels → IfState
at m labels = record { top = m; labels = labels }

module _ (mreqs pool : Hosts) (max_ifs : ℕ) where
  -- Machine `m` is mapped to a compatible pool machine, above the labels of the machines below.
  pub record MPlaced (c : Site) (m : MachineMatch) (labels : Labels) : Type 0 where
    pub site : AtSite mreqs pool c (at m labels)
    pub fits : params_fit c.req_m.params c.pool_m.params ≡ true
    pub inv : IfInv c (at m labels)
    pub cost : if_cost (size_of c) (at m labels) ≤ max_ifs

  -- Every machine of the stack is mapped, with all its interfaces.
  abbrev pub MFilled : List MachineMatch → Labels → Type 0
  MFilled [] labels = labels ≡ []
  MFilled (m ∷ ms) labels =
      (c : Site) × MPlaced c m labels
      × (m.unmatched_ifs ≡ [])
      × Filled c m.if_stack labels
      × MFilled ms c.base

  -- The top has no pool machine.
  pub record Vacant (m : MachineMatch) : Type 0 where
    pub no_match : m.current_match ≡ none
    pub no_ifs : m.if_stack ≡ []
    pub req_m : Host
    pub is_req : get mreqs m.m_id ≡ some req_m
    pub ifs : (x : String) → count x m.unmatched_ifs ≡ count x (keys req_m.interfaces)

  abbrev pub TopInv : List MachineMatch → Labels → Type 0
  TopInv [] labels = labels ≡ []
  TopInv (m ∷ ms) labels =
      (Vacant m × MFilled ms labels) ⊎ ((c : Site) × MPlaced c m labels × MFilled ms c.base)

-- The search leaves the requirements and the pools of `o`, where it began, alone; the current pool
-- is one of them, under its name, if there is one.
pub record KeptOf (o : Mapper) (mreqs : Hosts) (pools : Dict String Hosts) (name : Option String)
    (pool : Hosts) : Type 0 where
  pub same_mreqs : mreqs ≡ o.mreqs
  pub same_pools : pools ≡ o.pools
  pub in_pool : (o.pools ≡ []) ⊎ ((k : String) × (name ≡ some k) × (get o.pools k ≡ some pool))

abbrev pub Kept : Mapper → Mapper → Type 0
Kept o s = KeptOf o s.mreqs s.pools s.pool_name s.pool

-- What holds between the rounds, whatever the state of the top.
pub record Common (max_ifs max_machines : ℕ) (s : Mapper) : Type 0 where
  pub not_virtual : s.virtual_matching ≡ false
  pub reqs_ok : ReqsOk s.mreqs
  pub pool_ok : PoolOk s.mreqs max_ifs max_machines s.pool
  pub pools_ok :
      (k : String) (p : Hosts) → get s.pools k ≡ some p → PoolOk s.mreqs max_ifs max_machines p
  pub stack_ok : All (λ k. (p : Hosts) × (get s.pools k ≡ some p)) s.pool_stack
  pub required :
      (x : String)
      → count x s.unmatched_req_machines + count x (m_ids s.machine_stack) ≡ count x (keys s.mreqs)
  pub in_pool :
      (x : String)
      → count x s.unmatched_pool_machines + count x (m_taken s.machine_stack)
        ≡ count x (keys s.pool)
  pub remaining : MRemaining s.unmatched_pool_machines s.machine_stack

pub record MatchInv (o : Mapper) (max_ifs max_machines : ℕ) (s : Mapper) : Type 0 where
  pub kept : Kept o s
  pub common : Common max_ifs max_machines s
  pub top : TopInv s.mreqs s.pool max_ifs s.machine_stack s.net_label_mapping

-- Every machine on the stack is mapped with all its interfaces.
pub record FullInv (o : Mapper) (max_ifs max_machines : ℕ) (s : Mapper) : Type 0 where
  pub kept : Kept o s
  pub common : Common max_ifs max_machines s
  pub full : MFilled s.mreqs s.pool max_ifs s.machine_stack s.net_label_mapping

-- The interfaces of the pool machine that a frame is mapped to.
unfoldable pub frame_size : Hosts → MachineMatch → ℕ
frame_size pool m = elim m.current_match [
  | none ↦ 0
  | some t ↦ elim (get pool t) [ none ↦ 0 | some p ↦ length (keys p.interfaces) ]
]

-- The rounds that a frame can still take, but for those of the levels above it.
unfoldable pub frame_work : ℕ → Hosts → MachineMatch → ℕ
frame_work max_ifs pool m =
    if_cost (frame_size pool m) (at m []) + length m.remaining_matches * (1 + max_ifs)

unfoldable pub m_cost : ℕ → ℕ → Hosts → ℕ → List MachineMatch → ℕ
unfolding frame_work
m_cost max_ifs max_machines pool k [] = 0
m_cost max_ifs max_machines pool k (m ∷ ms) =
    level_cost (max_machines * (1 + max_ifs)) k (frame_work max_ifs pool m)
    + m_cost max_ifs max_machines pool (suc k) ms

-- The rounds of a whole pool.
unfoldable pub pool_cost : ℕ → ℕ → Hosts → ℕ
pool_cost max_ifs max_machines mreqs = sub_cost (max_machines * (1 + max_ifs)) (length (keys mreqs))

-- It falls with every round of the search.
unfoldable pub match_cost : ℕ → ℕ → Mapper → ℕ
unfolding m_cost pool_cost
match_cost max_ifs max_machines s =
    m_cost max_ifs max_machines s.pool (length s.unmatched_req_machines) s.machine_stack
    + length s.pool_stack * (1 + pool_cost max_ifs max_machines s.mreqs)
