-- ===== src/MinionManager/Selections.antt =====
-- The machines that are chosen for an action: each is used once, and the pool stays within its
-- maximum.
use cloudshift.Prelude.{ℕ, ◌≡◌, List, [], length}
use cloudshift.MinionManager.Pools.{Machine}
use cloudshift.MinionManager.Allocation.{Choice, Outcome, chosen, refused}
use cloudshift.MinionManager.Capacity.{Valid}

-- What holds of the choice, if one is made.
abbrev Given : (Choice → Type 0) → Outcome → Type 0
Given P (chosen c) = P c
Given P (refused e) = Unit

abbrev Complete : (uuid : ℕ → ℕ) (machines : List Machine) (count : ℕ) → Choice → Type 0
Complete uuid machines count c = Valid uuid machines c × (length c.allocations ≡ count)

abbrev nothing : Choice
nothing = record { allocations = []; existing = []; new_machines = [] }
