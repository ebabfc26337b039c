-- ===== src/Mapper/IfValid.antt =====
-- The invariant of the interface search: what the stack of interfaces, the free interfaces of the
-- pool machine and the label mapping say of each other (`_if_match` of MachineMapper.py).
pub mod Release
pub mod Next
pub mod Step
pub mod Loop
use lnst.Prelude.{
  ℕ, zero, suc, ◌+◌, ◌*◌, ◌≤◌, ◌<◌, String, ◌≡◌, ◌≢◌, Bool, true, false, Option, none, some, List,
  [], ◌∷◌, ◌⊎◌, string_eq, count, length,
}
use lnst.Prelude.Dict.{get, keys, IsDistinct}
use lnst.Mapper.Defs.{Iface, Host, Owner, Labels, IfMatch, MachineMatch}
use lnst.Mapper.Compat.{check_interface_compatibility}
use lnst.Mapper.IfSearch.{IfState, enter_label}

-- The required interfaces on a stack.
unfoldable pub if_ids : List IfMatch → List String
if_ids [] = []
if_ids (f ∷ fs) = f.if_id ∷ if_ids fs

abbrev pub own : Option String → List String → List String
own none free = free
own (some c) free = c ∷ free

-- The pool interfaces that are taken on a stack.
unfoldable pub taken : List IfMatch → List String
taken [] = []
taken (f ∷ fs) = own f.current_match (taken fs)

-- What remains to be tried at a level is free there, once the levels above are given up.
abbrev pub Remaining : List String → List IfMatch → Type 0
Remaining free [] = Unit
Remaining free (f ∷ fs) =
    ((x : String) → count x f.remaining_matches ≤ count x (own f.current_match free))
    × Remaining (own f.current_match free) fs

-- The invariant's parameters: the two machines, and the labels of the machines below.
pub record Site : Type 0 where
  pub m_id : String
  pub req_m : Host
  pub pool_m : Host
  pub base : Labels
  pub req_distinct : IsDistinct req_m.interfaces
  pub pool_distinct : IsDistinct pool_m.interfaces
  pub base_others : (x : String) (o : Owner) → get base x ≡ some o → o.m_id ≢ m_id

module _ (c : Site) where
  -- Interface `f` is placed on the compatible pool interface `p_id`, above the labels `below`.
  pub record Placed (f : IfMatch) (p_id : String) (below after : Labels) : Type 0 where
    pub req_if : Iface
    pub pool_if : Iface
    pub is_current : f.current_match ≡ some p_id
    pub is_required : get c.req_m.interfaces f.if_id ≡ some req_if
    pub is_in_pool : get c.pool_m.interfaces p_id ≡ some pool_if
    pub fits : check_interface_compatibility below req_if pool_if ≡ true
    pub entered : after ≡ enter_label below req_if pool_if c.m_id f.if_id

  -- Every interface of the stack is placed, and the labels are what the stack has entered.
  abbrev pub Filled : List IfMatch → Labels → Type 0
  Filled [] labels = labels ≡ c.base
  Filled (f ∷ fs) labels =
      (p_id : String) × (below : Labels) × Placed f p_id below labels × Filled fs below

  -- The top may wait for its first match.
  abbrev pub TopFilled : List IfMatch → Labels → Type 0
  TopFilled [] labels = labels ≡ c.base
  TopFilled (f ∷ fs) labels = ((f.current_match ≡ none) × Filled fs labels) ⊎ Filled (f ∷ fs) labels

  pub record IfInv (s : IfState) : Type 0 where
    pub at_machine : s.top.m_id ≡ c.m_id
    pub filled : TopFilled s.top.if_stack s.labels
    pub required :
        (x : String)
        → count x s.top.unmatched_ifs + count x (if_ids s.top.if_stack)
          ≡ count x (keys c.req_m.interfaces)
    pub in_pool :
        (x : String)
        → count x s.top.unmatched_pool_ifs + count x (taken s.top.if_stack)
          ≡ count x (keys c.pool_m.interfaces)
    pub pool_size :
        length s.top.unmatched_pool_ifs + length (taken s.top.if_stack)
        ≡ length (keys c.pool_m.interfaces)
    pub remaining : Remaining s.top.unmatched_pool_ifs s.top.if_stack

-- The rounds that a fresh level can take with `k` levels to come above it.
unfoldable pub sub_cost : ℕ → ℕ → ℕ
sub_cost size zero = 0
sub_cost size (suc k) = 1 + size * (1 + sub_cost size k)

unfoldable pub level_cost : ℕ → ℕ → ℕ → ℕ
unfolding sub_cost
level_cost size k r = 1 + r * (1 + sub_cost size k)

unfoldable pub stack_cost : ℕ → ℕ → List IfMatch → ℕ
unfolding level_cost
stack_cost size k [] = 0
stack_cost size k (f ∷ fs) =
    level_cost size k (length f.remaining_matches) + stack_cost size (suc k) fs

-- It falls with every round of the search.
unfoldable pub if_cost : ℕ → IfState → ℕ
unfolding stack_cost
if_cost size s = stack_cost size (length s.top.unmatched_ifs) s.top.if_stack
