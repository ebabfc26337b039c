-- ===== src/Mapper/Mapping.antt =====
-- lnst/Controller/MachineMapper.py: `get_mapping` and the generator `matches`.
use lnst.Prelude.{
  ℕ, zero, suc, String, Bool, true, false, ◌&&◌, ◌||◌, Option, none, some, List, [], ◌∷◌, ◌++◌,
  if◌then◌else◌, string_eq,
}
use lnst.Prelude.Exc.{Error, Result, ok, err, key_error, mapper_error, ◌>>=◌, or_raise}
use lnst.Prelude.Dict.{Dict, get, put}
use lnst.Mapper.Defs.{Host, Hosts, Labels, IfMatch, MachineMatch, Mapper}
use lnst.Mapper.Search.{reset_match_state, match_loop}

pub record IfMap : Type 0 where
  pub target : String
  pub hwaddr : String

pub record MachineMap : Type 0 where
  pub target : String
  pub hostname : String
  pub interfaces : Dict String IfMap

pub record Mapping : Type 0 where
  pub machines : Dict String MachineMap
  pub networks : Dict String String
  pub virtual : Bool
  pub pool_name : Option String

-- The loop over `_net_label_mapping`.
unfoldable pub map_networks : Labels → Dict String String
map_networks [] = []
map_networks ((req_label, owner) ∷ rest) = (req_label, owner.pool_label) ∷ map_networks rest

-- The loop over an `if_stack`, from its bottom.
unfoldable pub map_ifs : Host → List IfMatch → Result (Dict String IfMap)
map_ifs pool_m [] = ok []
map_ifs pool_m (f ∷ below) = do
  d ← map_ifs pool_m below
  target ← or_raise f.current_match key_error
  pool_if ← or_raise (get pool_m.interfaces target) key_error
  hwaddr ← or_raise (get pool_if.params "hwaddr") key_error
  ok (put d f.if_id (record { target = target; hwaddr = hwaddr }))

-- The loop over `_machine_stack`, from its bottom.
unfoldable pub map_machines : Hosts → List MachineMatch → Result (Dict String MachineMap)
unfolding map_ifs
map_machines pool [] = ok []
map_machines pool (m ∷ below) = do
  d ← map_machines pool below
  target ← or_raise m.current_match key_error
  pool_m ← or_raise (get pool target) key_error
  hostname ← or_raise (get pool_m.params "hostname") key_error
  ifs ← map_ifs pool_m m.if_stack
  ok (put d m.m_id (record { target = target; hostname = hostname; interfaces = ifs }))

unfoldable pub get_mapping : Mapper → Result Mapping
unfolding map_networks map_machines
get_mapping s = do
  machines ← map_machines s.pool s.machine_stack
  ok (record {
    machines = machines;
    networks = map_networks s.net_label_mapping;
    virtual = s.virtual_matching;
    pool_name = s.pool_name;
  })

-- What a consumer of the generator has seen: the mappings, and the exception that ended it.
pub record Yielded : Type 0 where
  pub mappings : List Mapping
  pub raised : Option Error
  pub state : Mapper

-- The loop `while self._match(): ...`; the fuels bound `_match`'s loops and this one.
unfoldable pub yield_loop : ℕ → ℕ → ℕ → Bool → Mapper → Option Yielded
yield_loop if_fuel fuel zero multimatch s = none
yield_loop if_fuel fuel (suc rounds) multimatch s = elim (match_loop if_fuel fuel s) [
  | none ↦ none
  | some (err e) ↦ some (record { mappings = []; raised = some e; state = s })
  | some (ok (false, t)) ↦ some (record { mappings = []; raised = none; state = t })
  | some (ok (true, t)) ↦ elim (get_mapping t) [
    | err e ↦ some (record { mappings = []; raised = some e; state = t })
    | ok m ↦ elim multimatch [
      | false ↦ some (record { mappings = m ∷ []; raised = none; state = t })
      | true ↦ elim (yield_loop if_fuel fuel rounds true t) [
        | none ↦ none
        | some y ↦ some (record y { mappings = m ∷ y.mappings })
      ]
    ]
  ]
]

-- One search, from a reset state.
unfoldable pub search_from : ℕ → ℕ → ℕ → Bool → Mapper → Option Yielded
search_from if_fuel fuel rounds multimatch s = elim (reset_match_state s) [
  | err e ↦ some (record { mappings = []; raised = some e; state = s })
  | ok t ↦ yield_loop if_fuel fuel rounds multimatch t
]

-- `if not matched: raise MapperError`
unfoldable pub or_no_match : Yielded → Yielded
or_no_match y = elim y.raised [
  | some e ↦ y
  | none ↦ elim y.mappings [ [] ↦ record y { raised = some mapper_error } | m ∷ ms ↦ y ]
]

abbrev is_nil {ℓ} : {A : Type ℓ} → List A → Bool
is_nil [] = true
is_nil (x ∷ xs) = false

abbrev is_none {ℓ} : {A : Type ℓ} → Option A → Bool
is_none none = true
is_none (some x) = false

-- Whether the generator goes on to virtual machines: it did not return or raise before.
abbrev goes_on : Bool → Bool → Yielded → Bool
goes_on multimatch allow_virt y =
    allow_virt && (is_none y.raised && (multimatch || is_nil y.mappings))

-- matches, read to its end by the consumer
unfoldable pub matches : ℕ → ℕ → ℕ → Bool → Bool → Mapper → Option Yielded
matches if_fuel fuel rounds multimatch allow_virt s =
    elim (search_from if_fuel fuel rounds multimatch s) [
      | none ↦ none
      | some y ↦
          if goes_on multimatch allow_virt y
          then elim (search_from if_fuel fuel rounds multimatch
              (record y.state { virtual_matching = true })) [
                | none ↦ none
                | some z ↦ some (or_no_match (record z { mappings = y.mappings ++ z.mappings }))
              ]
          else some (or_no_match y)
    ]
