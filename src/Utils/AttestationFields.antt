-- ===== src/Utils/AttestationFields.antt =====
-- `ParseAttestationSSZTopic` of pkg/utils/topics.go: attester and slot of a gossip attestation,
-- read at their offsets without decoding the rest.
use optimum_gateway.Base.{ℕ, Result, ok, err, guard, ◌>>=◌, ◌>>◌, length, slice, ◌==◌}
use optimum_gateway.Base.Wire.{Bytes, le_value}
use optimum_gateway.Utils.Snappy.{Snappy, SnappyError, decode_snappy}

pub data ParseError : Type 0 where
  decompress_failed : SnappyError → ParseError
  unexpected_size : ℕ → ParseError

abbrev pub from_decompress {ℓ} : {A : Type ℓ} → Result SnappyError A → Result ParseError A
from_decompress (ok a) = ok a
from_decompress (err e) = err (decompress_failed e)

abbrev pub single_attestation_ssz_size : ℕ
single_attestation_ssz_size = 240

-- The attester index and the slot.
unfoldable pub parse_attestation : Snappy → Bytes → Result ParseError (ℕ × ℕ)
parse_attestation z buf = do
  msg ← from_decompress (decode_snappy z buf 300)
  guard (length msg == single_attestation_ssz_size) (unexpected_size (length msg))
  ok (le_value (slice 8 16 msg), le_value (slice 16 24 msg))
