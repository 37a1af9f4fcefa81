-- ===== src/Aggregator/Gate.antt =====
-- When `shouldHoldForSlotGate` lets the aggregator publish.
use optimum_gateway.Base.{
  ℕ, suc, ◌+◌, ◌-◌, ◌*◌, ◌≤◌, ◌<◌, ◌≡◌, ◌↔◌, refl, arith, Bool, true, false, not, ◌&&◌, inl, inr,
  ◌⊎◌, ltb, leb, if◌then◌else◌, Bool-cases,
}
use optimum_gateway.ChainState.{slot_at, slot_start_time, unix, max_duration}
use optimum_gateway.ChainState.Slots.{slot_at_iff, slot_start_time_exact}
use optimum_gateway.Aggregator.{should_hold_for_slot_gate, unix_milli}

-- A number of milliseconds into a slot of a chain whose genesis is a whole number of seconds
-- after 1970.
abbrev pub into_slot : ℕ → ℕ → ℕ → ℕ
into_slot genesis_sec slot ms = unix genesis_sec + slot * 12000000000 + ms * 1000000

-- The start of a slot in milliseconds since 1970.
abbrev pub start_ms : ℕ → ℕ → ℕ
start_ms genesis_sec slot = genesis_sec * 1000 + slot * 12000

unix_milli-into_slot :
    (genesis_sec slot ms : ℕ)
    → unix_milli (into_slot genesis_sec slot ms) ≡ start_ms genesis_sec slot + ms
unfolding unix_milli unix
unix_milli-into_slot genesis_sec slot ms = omega arith

slot_start-into_slot :
    (genesis_sec slot ms : ℕ)
    → ms < 12000
    → suc slot * 12000000000 ≤ max_duration
    → slot_start_time
        (unix genesis_sec)
        (slot_at (unix genesis_sec) (into_slot genesis_sec slot ms))
      ≡ into_slot genesis_sec slot 0
slot_start-into_slot genesis_sec slot ms h r = rw (here, start) (omega arith)
  where
    start : slot_start_time (unix genesis_sec) slot ≡ unix genesis_sec + slot * 12000000000
    start = slot_start_time_exact (unix genesis_sec) slot (omega (arith, r))

    next : slot_start_time (unix genesis_sec) (suc slot) ≡ unix genesis_sec + suc slot * 12000000000
    next = slot_start_time_exact (unix genesis_sec) (suc slot) r

    here : slot_at (unix genesis_sec) (into_slot genesis_sec slot ms) ≡ slot
    here =
        (slot_at_iff (unix genesis_sec) (into_slot genesis_sec slot ms) slot (omega arith)
            (omega (arith, h, r)) r).1
          (omega (arith, start), omega (arith, next, h))

-- The gate in milliseconds: `b` is the slot's start.
abbrev gate : ℕ → ℕ → ℕ → Bool
gate b ms last =
    if not
      (if ltb 0 last && ltb b last then leb (last + 2000) (b + ms) else leb (b + 4000) (b + ms))
    then true
    else leb 8000 ms

gate_iff :
    (b ms last : ℕ)
    → (gate b ms last ≡ false)
      ↔ ((ms < 8000) × (((b < last) × (last + 2000 ≤ b + ms)) ⊎ ((last ≤ b) × (4000 ≤ ms))))
gate_iff b ms last = (
  λ h. elim (Bool-cases (ltb b last)) [
    | inl y ↦ (ground (arith, h), inl (ground (arith, h), ground (arith, h)))
    | inr n ↦ (ground (arith, h), inr (ground (arith, h), ground (arith, h)))
  ],
  λ (early, o). elim o [
    | inl (after, late) ↦ ground (arith, early, after, late)
    | inr (before, late) ↦ ground (arith, early, before, late)
  ],
)

leb_scaled : (ms a b : ℕ) → b ≡ a + ms * 1000000 → leb 8000000000 (b - a) ≡ leb 8000 ms
leb_scaled ms a b e = ground (arith, e)

should_hold-gate :
    (genesis_sec slot ms last_block_ms : ℕ)
    → ms < 12000
    → suc slot * 12000000000 ≤ max_duration
    → should_hold_for_slot_gate true
        (unix genesis_sec)
        (into_slot genesis_sec slot ms)
        last_block_ms
      ≡ gate (start_ms genesis_sec slot) ms last_block_ms
unfolding should_hold_for_slot_gate
should_hold-gate genesis_sec slot ms last h r =
    rw
      (
        slot_start-into_slot genesis_sec slot ms h r,
        unix_milli-into_slot genesis_sec slot ms,
        start,
        later,
        leb_scaled ms (into_slot genesis_sec slot 0) (into_slot genesis_sec slot ms) (omega arith),
      )
      refl
  where
    start : unix_milli (into_slot genesis_sec slot 0) ≡ start_ms genesis_sec slot
    start = omega (arith, unix_milli-into_slot genesis_sec slot 0)

    later :
        unix_milli (into_slot genesis_sec slot 0 + 4000000000) ≡ start_ms genesis_sec slot + 4000
    later = unfold unix_milli unix in omega arith

-- Some milliseconds into a slot the aggregator may publish exactly when two seconds have passed
-- since the last block of this slot, or four since its start where there was none, and fewer than
-- eight since its start.
pub should_hold_for_slot_gate_iff :
    (genesis_sec slot ms last_block_ms : ℕ)
    → ms < 12000
    → suc slot * 12000000000 ≤ max_duration
    → (should_hold_for_slot_gate true
          (unix genesis_sec)
          (into_slot genesis_sec slot ms)
          last_block_ms
        ≡ false)
      ↔ ((ms < 8000)
          × (((start_ms genesis_sec slot < last_block_ms)
                × (last_block_ms + 2000 ≤ start_ms genesis_sec slot + ms))
              ⊎ ((last_block_ms ≤ start_ms genesis_sec slot) × (4000 ≤ ms))))
should_hold_for_slot_gate_iff genesis_sec slot ms last h r =
    rw (should_hold-gate genesis_sec slot ms last h r)
      (gate_iff (start_ms genesis_sec slot) ms last)
