-- ===== src/Mapper/Defs.antt =====
-- lnst/Controller/MachineMapper.py: the state of `MachineMapper` and what its stacks hold.
-- A Python list that is used as a stack is held top first: `append` puts in front, `pop` takes
-- the front, and `sorted(..., reverse=True)` reads ascending.
use Prim.Native.Char.{code}
use lnst.Prelude.{
  ℕ, suc, String, ◌≡◌, Bool, true, false, Option, none, some, List, [], ◌∷◌, arith, if◌then◌else◌,
  string_eq, ◌==◌, ==_iff, ltb, nat_beq, count, length, ◌<◌, ◌≤◌, ==_self, Option-cases, Bool-cases,
  inl, inr,
}
use lnst.Prelude.Dict.{Dict}

-- The dictionary of one interface, required or in a pool.
pub record Iface : Type 0 where
  pub network : String
  pub params : Dict String String

-- The dictionary of one machine, required or in a pool.
pub record Host : Type 0 where
  pub interfaces : Dict String Iface
  pub params : Dict String String

abbrev pub Hosts : Type 0
Hosts = Dict String Host

-- The value of `_net_label_mapping`: the pool's label, and the interface that introduced it.
pub record Owner : Type 0 where
  pub pool_label : String
  pub m_id : String
  pub if_id : String

abbrev pub Labels : Type 0
Labels = Dict String Owner

-- `if_match`: an entry of `if_stack`
pub record IfMatch : Type 0 where
  pub if_id : String
  pub current_match : Option String
  pub remaining_matches : List String

-- `machine_match`: an entry of `_machine_stack`
pub record MachineMatch : Type 0 where
  pub m_id : String
  pub current_match : Option String
  pub remaining_matches : List String
  pub if_stack : List IfMatch
  pub unmatched_ifs : List String
  pub unmatched_pool_ifs : List String
  pub virt_matched : Bool

pub record Mapper : Type 0 where
  pub pools : Dict String Hosts
  pub pool_stack : List String
  pub pool : Hosts
  pub pool_name : Option String
  pub mreqs : Hosts
  pub unmatched_req_machines : List String
  pub unmatched_pool_machines : List String
  pub machine_stack : List MachineMatch
  pub net_label_mapping : Labels
  pub virtual_matching : Bool

-- MachineMapper()
abbrev pub new_mapper : Mapper
new_mapper = record {
  pools = [];
  pool_stack = [];
  pool = [];
  pool_name = none;
  mreqs = [];
  unmatched_req_machines = [];
  unmatched_pool_machines = [];
  machine_stack = [];
  net_label_mapping = [];
  virtual_matching = false;
}

unfoldable pub set_requirements : Mapper → Hosts → Mapper
set_requirements s mreqs = record s { mreqs = mreqs }

-- The argument is what `pools_manager.get_pools()` returns.
unfoldable pub set_pools_manager : Mapper → Dict String Hosts → Mapper
set_pools_manager s pools = record s { pools = pools }

-- The code points of a text, by which Python compares texts.
abbrev codes : String → List ℕ
codes String.[] = []
codes (String.◌∷◌ c s) = code c ∷ codes s

lex_leb : List ℕ → List ℕ → Bool
lex_leb [] ys = true
lex_leb (x ∷ xs) [] = false
lex_leb (x ∷ xs) (y ∷ ys) =
    let rest = lex_leb xs ys in if ltb x y then true else if nat_beq x y then rest else false

insert_sorted : String → List String → List String
insert_sorted x [] = x ∷ []
insert_sorted x (y ∷ ys) =
    if lex_leb (codes x) (codes y) then x ∷ y ∷ ys else y ∷ insert_sorted x ys

-- sorted(ids, reverse=True), top first
unfoldable pub sorted_top : List String → List String
unfolding insert_sorted lex_leb
sorted_top [] = []
sorted_top (x ∷ xs) = insert_sorted x (sorted_top xs)

count-insert_sorted :
    (a x : String) (ys : List String)
    → count a (insert_sorted x ys) ≡ (if x == a then suc (count a ys) else count a ys)
unfolding insert_sorted count
count-insert_sorted a x [] = ground arith
count-insert_sorted a x (y ∷ ys) = ground (arith, count-insert_sorted a x ys)

-- Sorting keeps every identifier as often.
pub count-sorted_top : (a : String) (xs : List String) → count a (sorted_top xs) ≡ count a xs
unfolding sorted_top count
count-sorted_top a [] = ground arith
count-sorted_top a (x ∷ xs) =
    ground (arith, count-insert_sorted a x (sorted_top xs), count-sorted_top a xs)

-- list.remove: the first occurrence in Python's order is the last one here; `none` is ValueError.
unfoldable pub remove : List String → String → Option (List String)
remove [] a = none
remove (x ∷ xs) a = elim (remove xs a) [
  | some ys ↦ some (x ∷ ys)
  | none ↦ if x == a then some xs else none
]

pub count-remove :
    (x a : String) (xs : List String) {ys : List String}
    → remove xs a ≡ some ys
    → count x xs ≡ (if a == x then suc (count x ys) else count x ys)
unfolding remove count
count-remove x a [] h = absurd (cc)
count-remove x a (y ∷ xs) h = elim (Option-cases (remove xs a)) [
  | inl gone ↦ ground (arith, gone, ==_iff y a, h)
  | inr (zs, found) ↦ ground (arith, found, h, count-remove x a xs found)
]

pub length-remove :
    (a : String) (xs : List String) {ys : List String}
    → remove xs a ≡ some ys
    → length xs ≡ suc (length ys)
unfolding remove
length-remove a [] h = absurd (cc)
length-remove a (y ∷ xs) h = elim (Option-cases (remove xs a)) [
  | inl gone ↦ ground (arith, gone, h)
  | inr (zs, found) ↦ ground (arith, found, h, length-remove a xs found)
]

-- What is in the list can be removed.
pub remove_total :
    (a : String) (xs : List String) → 0 < count a xs → (ys : List String) × (remove xs a ≡ some ys)
unfolding remove count
remove_total a [] h = absurd (omega arith)
remove_total a (y ∷ xs) h = elim (Option-cases (remove xs a)) [
  | inr (zs, found) ↦ (y ∷ zs, rw found)
  | inl gone ↦ elim (Bool-cases (y == a)) [
    | inl same ↦ (xs, rw (gone, same))
    | inr other ↦
        let r : (ys : List String) × (remove xs a ≡ some ys) = remove_total a xs (rw other at h) in
        absurd (cc (r.1))
  ]
]

-- A list that holds nothing more often than another is no longer.
pub length_le_of_count :
    (xs ys : List String) → ((x : String) → count x xs ≤ count x ys) → length xs ≤ length ys
unfolding count
length_le_of_count [] ys h = omega arith
length_le_of_count (x ∷ xs) ys h =
    let r : (zs : List String) × (remove ys x ≡ some zs) =
      remove_total x ys (ground (arith, h x, ==_self x)) in
    omega (
      arith,
      length-remove x ys r.1,
      length_le_of_count xs r.0 (λ z. ground (arith, h z, count-remove z x ys r.1)),
    )
