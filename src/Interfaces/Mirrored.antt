-- ===== src/Interfaces/Mirrored.antt =====
-- The state that the agent keeps its table of devices in.
use lnst.Prelude.{
  ℕ, ◌≡◌, some, List, [], ◌∷◌, Bool, true, false, ◌==◌, if◌then◌else◌, nat_eq, string_eq, elem,
}
use lnst.Prelude.Dict.{get, has, IsDistinct}
use lnst.Interfaces.{Device, Notice, dev_created, dev_deleted, dev_netns_changed, Manager}

-- Whether the controller, from what it was told, the last first, counts the device in.
abbrev pub told : List Notice → ℕ → Bool
told [] i = false
told (dev_created j name hwaddr ∷ sent) i = let rest = told sent i in if j == i then true else rest
told (dev_deleted j ∷ sent) i = let rest = told sent i in if j == i then false else rest
told (dev_netns_changed j n ∷ sent) i = let rest = told sent i in if j == i then false else rest

pub record Consistent (m : Manager) : Type 0 where
  pub distinct : IsDistinct m.devices
  -- A device stands at its own index and is not deleted.
  pub own_index : (i : ℕ) (d : Device) → get m.devices i ≡ some d → d.ifindex ≡ i
  pub alive : (i : ℕ) (d : Device) → get m.devices i ≡ some d → d.deleted ≡ false
  -- The controller counts in exactly the devices of the table.
  pub mirrored : (i : ℕ) → has m.devices i ≡ told m.sent i
  pub loopback : elem "LoopbackDevice" m.device_classes ≡ true
  pub device : elem "Device" m.device_classes ≡ true
