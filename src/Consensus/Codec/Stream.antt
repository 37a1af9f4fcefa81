-- ===== src/Consensus/Codec/Stream.antt =====
-- pkg/protocol/consensus/codec.go, the req/resp half: the uvarint of the length, then the SSZ
-- bytes as a snappy stream. A stream is the list of the bytes to come; the writer is taken to
-- accept all that is written. `oneByteReader` hands `ReadUvarint` one byte at a time, so
-- the length takes exactly its own bytes off the stream.
use optimum_gateway.Base.{
  ℕ, ◌+◌, ◌*◌, ◌/◌, ◌≤◌, ◌≡◌, refl, ap, ◌∙◌, ◌++◌, arith, Option, some, Result, ok, err, guard,
  or_fail, ◌>>=◌, ◌>>◌, length, leb, le→leb, take, take-append, take-append_past, ◌-◌,
}
use mathlib.Core.List.{append_assoc}
use optimum_gateway.Base.Wire.{Bytes}
use optimum_gateway.Base.Varint.{
  VarintError, append_uvarint, read_uvarint, read_uvarint-put_uvarint, uvarint_bound,
}
use optimum_gateway.Consensus.Types.{SszError}
use optimum_gateway.Consensus.Codec.{Ssz}
use optimum_gateway.Utils.Snappy.{max_gossip_payload_size}

-- github.com/golang/snappy on streams: what a buffered writer has written after `Close`, and
-- what a full read of `n` bytes finds behind a reader of the given bytes. The framing format has
-- a header of 10 bytes and 8 bytes for each chunk of at most 65536 bytes, which is stored as
-- it is where compression does not shorten it.
pub record SnappyStream : Type 0 where
  pub frame : Bytes → Bytes
  pub read_full : ℕ → Bytes → Option Bytes
  pub length-frame :
      (b : Bytes) → length (frame b) ≤ 10 + 8 * ((length b + 65535) / 65536) + length b
  pub read_full-frame : (b rest : Bytes) → read_full (length b) (frame b ++ rest) ≡ some b

pub data StreamError : Type 0 where
  ssz_failed : SszError → StreamError
  bad_length : VarintError → StreamError
  exceeds_max : ℕ → StreamError
  too_large : ℕ → StreamError
  read_failed : StreamError

abbrev lift_ssz {ℓ} : {A : Type ℓ} → Result SszError A → Result StreamError A
lift_ssz (ok a) = ok a
lift_ssz (err e) = err (ssz_failed e)

abbrev lift_varint {ℓ} : {A : Type ℓ} → Result VarintError A → Result StreamError A
lift_varint (ok a) = ok a
lift_varint (err e) = err (bad_length e)

-- `snappy.MaxEncodedLen`, -1 (here none) where 32-bit lengths would overflow.
abbrev max_encoded_len : ℕ → ℕ
max_encoded_len n = 32 + n + n / 6

module _ (y : SnappyStream) {A : Type 0} (s : Ssz A) where
  -- `EncodeWithMaxLength`: what is written to the stream.
  unfoldable pub encode_with_max_length : A → Result StreamError Bytes
  encode_with_max_length msg = do
    b ← lift_ssz (s.marshal msg)
    guard (leb (length b) max_gossip_payload_size) (exceeds_max (length b))
    ok (append_uvarint (length b) ++ y.frame b)

  -- `DecodeWithMaxLength` on the bytes of the stream. Its test `maxCompressed < 0` cannot
  -- succeed: the length is at most the gossip limit there.
  unfoldable pub decode_with_max_length : Bytes → Result StreamError A
  decode_with_max_length r = do
    p ← lift_varint (read_uvarint 10 0 1 r)
    let msg_len = p.0
    guard (leb msg_len max_gossip_payload_size) (exceeds_max msg_len)
    buf ← or_fail (y.read_full msg_len (take (max_encoded_len msg_len) p.1)) read_failed
    lift_ssz (s.unmarshal buf)

  -- The limit set on the compressed bytes never cuts off a frame of an honest sender.
  frame-fits :
      (b : Bytes)
      → length b ≤ max_gossip_payload_size
      → length (y.frame b) ≤ max_encoded_len (length b)
  frame-fits b h = omega (arith, y.length-frame b)

  read_length :
      (b rest : Bytes)
      → length b ≤ max_gossip_payload_size
      → read_uvarint 10 0 1 (append_uvarint (length b) ++ rest) ≡ ok (length b, rest)
  unfolding uvarint_bound
  read_length b rest h =
      read_uvarint-put_uvarint 9 0 (length b) 1 rest (omega arith)
      ∙ ap (λ t. ok (t, rest)) (omega arith)

  decode_frame :
      (b rest : Bytes)
      → length b ≤ max_gossip_payload_size
      → decode_with_max_length (append_uvarint (length b) ++ (y.frame b ++ rest))
        ≡ lift_ssz (s.unmarshal b)
  unfolding decode_with_max_length
  decode_frame b rest h =
      let limit = max_encoded_len (length b) in
      rw (read_length b (y.frame b ++ rest) h) (
        rw (le→leb (length b) max_gossip_payload_size h) (
          rw (take-append_past limit (y.frame b) rest (frame-fits b h))
            (rw (y.read_full-frame b (take (limit - length (y.frame b)) rest)))))

  -- A valid message of a container within the limit is written, and whatever follows it on the
  -- stream, the receiver decodes the same message.
  decode-encode_with_max_length :
      (msg : A) (rest : Bytes)
      → s.IsValid msg
      → s.size ≤ max_gossip_payload_size
      → (b : Bytes) × (encode_with_max_length msg ≡ ok b)
        × (decode_with_max_length (b ++ rest) ≡ ok msg)
  unfolding encode_with_max_length
  decode-encode_with_max_length msg rest v fits =
      let (b, m, l, u) = s.marshal_lem msg v in
      let short : length b ≤ max_gossip_payload_size = omega arith in
      (
        append_uvarint (length b) ++ y.frame b,
        rw m (rw (le→leb (length b) max_gossip_payload_size short)),
        rw (append_assoc (append_uvarint (length b)) (y.frame b) rest)
            (decode_frame b rest short ∙ rw u),
      )

pub read_stored : (b rest : Bytes) → some (take (length b) (b ++ rest)) ≡ some b
read_stored b rest = ap some (take-append b rest (length b) refl)

-- A stream that meets the conditions: bytes as they are.
abbrev pub stored_stream : SnappyStream
stored_stream = record {
  frame = λ b. b;
  read_full = λ n b. some (take n b);
  length-frame = λ b. omega arith;
  read_full-frame = read_stored;
}
