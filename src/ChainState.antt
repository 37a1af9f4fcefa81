-- ===== src/ChainState.antt =====
-- pkg/protocol/consensus/slots.go, pkg/protocol/chain_state/chain_state.go and duty.go. A time is
-- in nanoseconds since Go's zero time, the start of the year 1; the chain table of optimum-common
-- (`genesis_of`, in Unix seconds) and the wall clock are parameters.
pub mod Slots
mod Tests
use optimum_gateway.Base.{
  ℕ, ◌+◌, ◌-◌, ◌*◌, ◌/◌, ◌%◌, min, Bool, true, false, Option, none, some, Result, ok, err,
  if◌then◌else◌, leb, ltb, ◌==◌,
}
use optimum_gateway.Base.Wire.{Bytes}
use optimum_gateway.Utils.Text.{codes}

abbrev pub second : ℕ
second = 1000000000

abbrev pub seconds_per_slot : ℕ
seconds_per_slot = 12

-- The greatest `time.Duration`, at which `Time.Sub` stops.
abbrev pub max_duration : ℕ
max_duration = 9223372036854775807

abbrev pub two_64 : ℕ
two_64 = 18446744073709551616

-- `SlotAt`
unfoldable pub slot_at : ℕ → ℕ → ℕ
slot_at genesis t =
    if leb t genesis then 0 else min (t - genesis) max_duration / second / seconds_per_slot

-- `Time.Add` of an int64 given by its bits.
unfoldable pub add_duration : ℕ → ℕ → ℕ
add_duration t bits = if leb bits max_duration then t + bits else t - (two_64 - bits)

-- `SlotStartTime`; both products wrap around.
unfoldable pub slot_start_time : ℕ → ℕ → ℕ
unfolding add_duration
slot_start_time genesis slot =
    add_duration genesis (slot * seconds_per_slot % two_64 * second % two_64)

-- `time.Unix` of some seconds.
unfoldable pub unix : ℕ → ℕ
unix seconds = (62135596800 + seconds) * second

module _ (genesis_of : Bytes → Option ℕ) where
  -- `LoadGenesisState`: the state is the loaded genesis time, or none.
  unfoldable pub load_genesis_state : Bytes → Result (Unit {0}) (Option ℕ)
  unfolding unix
  load_genesis_state chain = elim (genesis_of chain) [
    | none ↦ err tt
    | some seconds ↦ ok (some (unix seconds))
  ]

  -- `genesisTime`, with hoodi's where none is loaded.
  unfoldable pub genesis_time : Option ℕ → ℕ
  unfolding unix
  genesis_time (some t) = t
  genesis_time none = elim (genesis_of (codes "hoodi")) [ none ↦ 0 | some s ↦ unix s ]

  -- `CurrentSlot`; the zero time stands for the time of the call.
  unfoldable pub current_slot : Option ℕ → ℕ → ℕ → ℕ
  unfolding slot_at genesis_time
  current_slot state t now = slot_at (genesis_time state) (if t == 0 then now else t)

-- `DiffUint64` of pkg/utils/numbers.go
unfoldable pub diff_uint64 : ℕ → ℕ → ℕ
diff_uint64 a b = if ltb b a then a - b else b - a
