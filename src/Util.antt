-- ===== src/Util.antt =====
-- ossa-core/src/util.rs: helpers of the protocol code.
pub mod Ranges
use Prim.Native.Nat.{bit_and}
use ossa.Prelude.{ℕ, ◌+◌, ◌-◌, ◌%◌, ◌^◌, Bool, ◌==◌}

-- `is_power_of_two`, over `u64`
unfoldable pub is_power_of_two : ℕ → Bool
is_power_of_two x = 0 == bit_and x ((x + 2 ^ 64 - 1) % 2 ^ 64)
