-- ===== src/Mapper.antt =====
-- The matching of requirements to pool machines (lnst/Controller/MachineMapper.py).
pub mod Defs
pub mod Compat
pub mod IfSearch
pub mod Search
pub mod Mapping
pub mod IfValid
pub mod Valid
pub mod Sound
pub mod Matches
pub mod Faults
pub mod Tests
