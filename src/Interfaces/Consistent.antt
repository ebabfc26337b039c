-- ===== src/Interfaces/Consistent.antt =====
-- InterfaceManager: the table, the devices in it, and what the controller was told.
use lnst.Prelude.{nat_eq, string_eq}
