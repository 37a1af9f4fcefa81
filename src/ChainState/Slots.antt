-- ===== src/ChainState/Slots.antt =====
-- Slot numbers and slot times of pkg/protocol/consensus/slots.go.
use optimum_gateway.Base.{ℕ, suc, ◌+◌, ◌-◌, ◌/◌, ◌*◌, ◌≤◌, ◌<◌, ◌≡◌, ◌↔◌, arith}
use optimum_gateway.ChainState.{slot_at, slot_start_time, add_duration, max_duration, diff_uint64}

-- Up to the slot that starts 292 years after genesis nothing wraps around.
pub slot_start_time_exact :
    (genesis slot : ℕ)
    → slot * 12000000000 ≤ max_duration
    → slot_start_time genesis slot ≡ genesis + slot * 12000000000
unfolding slot_start_time add_duration
slot_start_time_exact genesis slot h = ground (arith, h)

slot_at_value :
    (genesis t : ℕ)
    → t ≤ genesis + max_duration
    → slot_at genesis t ≡ (t - genesis) / 1000000000 / 12
unfolding slot_at
slot_at_value genesis t h = ground (arith, h)

-- Within that range a time is in a slot exactly when it is between the slot's start and the start
-- of the next one.
pub slot_at_iff :
    (genesis t slot : ℕ)
    → genesis ≤ t
    → t ≤ genesis + max_duration
    → suc slot * 12000000000 ≤ max_duration
    → (slot_at genesis t ≡ slot)
      ↔ ((slot_start_time genesis slot ≤ t) × (t < slot_start_time genesis (suc slot)))
slot_at_iff genesis t slot g h s =
    rw (start, next, slot_at_value genesis t h)
      ((λ e. (omega (arith, e, g), omega (arith, e, g))), λ b. omega (arith, b.0, b.1, g))
  where
    start : slot_start_time genesis slot ≡ genesis + slot * 12000000000
    start = slot_start_time_exact genesis slot (omega (arith, s))

    next : slot_start_time genesis (suc slot) ≡ genesis + suc slot * 12000000000
    next = slot_start_time_exact genesis (suc slot) s

-- The difference of two slots, whichever is greater; it is 0 exactly for equal ones.
pub diff_uint64_within : (a b d : ℕ) → (diff_uint64 a b ≤ d) ↔ ((a ≤ b + d) × (b ≤ a + d))
unfolding diff_uint64
diff_uint64_within a b d =
    (λ h. (ground (arith, h), ground (arith, h)), λ h. ground (arith, h.0, h.1))
