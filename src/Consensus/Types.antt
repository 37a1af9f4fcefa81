-- ===== src/Consensus/Types.antt =====
-- pkg/protocol/consensus/types.go, and the error of the SSZ decoders. Slots, epochs and indexes
-- are uint64: plain numbers, with their range stated by `IsUint64`.
use optimum_gateway.Base.{ℕ, ◌<◌, Result, ok, guard, ◌>>◌, length, ◌==◌}
use optimum_gateway.Base.Wire.{Bytes, le_bytes, le_value, capacity}

-- A payload of the wrong length: the expected length and the length received.
pub data SszError : Type 0 where
  bad_length : ℕ → ℕ → SszError

abbrev pub IsUint64 : ℕ → Type 0
IsUint64 v = v < capacity 8

-- `SSZUint64.MarshalSSZ`
unfoldable pub marshal_uint64 : ℕ → Bytes
marshal_uint64 v = le_bytes 8 v

-- `SSZUint64.UnmarshalSSZ`
unfoldable pub unmarshal_uint64 : Bytes → Result SszError ℕ
unmarshal_uint64 buf = do guard (length buf == 8) (bad_length 8 (length buf)); ok (le_value buf)
