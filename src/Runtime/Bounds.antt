-- ===== src/Runtime/Bounds.antt =====
-- The channels of the clients never hold more than their capacity.
use snowcast.Prelude.{ℕ, ◌+◌, ltb, if◌then◌else◌}
use snowcast.State.Store.{State}
use snowcast.Runtime.Stream.{capacity}
use snowcast.Runtime.Queues.{offers}

-- The length of a queue after so many offers.
abbrev pub filled : (before offers : ℕ) → ℕ
filled before n = if ltb (before + n) capacity then before + n else capacity
