-- ===== src/ChainState/Tests.antt =====
-- The theorems on slots at concrete times.
use optimum_gateway.Base.{◌+◌, ◌*◌, ◌≤◌, ◌<◌, ◌≡◌, ◌↔◌, arith}
use optimum_gateway.ChainState.{slot_at, slot_start_time, diff_uint64, second}
use optimum_gateway.ChainState.Slots.{slot_at_iff, diff_uint64_within}

slot_at_iff_example : (slot_at (1000 * second) (1025 * second) ≡ 2) ↔ (
    (slot_start_time (1000 * second) 2 ≤ 1025 * second)
    × (1025 * second < slot_start_time (1000 * second) 3))
slot_at_iff_example =
    slot_at_iff (1000 * second) (1025 * second) 2 (omega arith) (omega arith) (omega arith)

diff_uint64_within_example : (diff_uint64 7 9 ≤ 2) ↔ ((7 ≤ 9 + 2) × (9 ≤ 7 + 2))
diff_uint64_within_example = diff_uint64_within 7 9 2
