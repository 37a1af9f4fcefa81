-- ===== src/Consensus/Rpc/MetaDataV0.antt =====
-- `MetaDataV0` of pkg/protocol/consensus/rpc.go (16 bytes), its codec, and that the two halves of
-- the codec are inverse to one another.
use optimum_gateway.Base.{
  ℕ, ◌≡◌, ◌≢◌, ◌⊎◌, refl, ap, ◌∙◌, [], ◌∷◌, ◌++◌, arith, Result, ok, err, length, slice, ==_iff,
  Bool-cases, ◌==◌, inl, inr, guard, ◌>>◌,
}
use optimum_gateway.Base.Wire.{Bytes, IsBytes, le_bytes, le_value, length-le_bytes}
use optimum_gateway.Base.Parts.{
  slice-concat, slice_cons, le_bytes-slice, IsArray, le_value-slice-concat, length-concat,
  slice_whole, slice-IsArray, le_value-slice-lt,
}
use optimum_gateway.Consensus.Types.{SszError, bad_length, IsUint64}

abbrev pub meta_v0_size : ℕ
meta_v0_size = 16

pub record MetaDataV0 : Type 0 where
  pub seq_number : ℕ
  pub attnets : Bytes

-- What Go's types guarantee.
pub record IsMetaDataV0 (s : MetaDataV0) : Type 0 where
  pub seq_number_fits : IsUint64 s.seq_number
  pub attnets_fits : IsArray 8 s.attnets

-- `MetaDataV0.MarshalSSZ`, which always succeeds.
unfoldable pub marshal_meta_v0 : MetaDataV0 → Bytes
marshal_meta_v0 s = le_bytes 8 s.seq_number ++ s.attnets

-- The fields that `MetaDataV0.UnmarshalSSZ` reads after its length check.
unfoldable pub meta_v0_fields : Bytes → MetaDataV0
meta_v0_fields b = record { seq_number = le_value (slice 0 8 b); attnets = slice 8 16 b }

unfoldable pub unmarshal_meta_v0 : Bytes → Result SszError MetaDataV0
unfolding meta_v0_fields
unmarshal_meta_v0 b = do
  guard (length b == meta_v0_size) (bad_length meta_v0_size (length b))
  ok (meta_v0_fields b)

module _ (s : MetaDataV0) (v : IsMetaDataV0 s) where
  length-marshal_meta_v0 : length (marshal_meta_v0 s) ≡ 16
  unfolding marshal_meta_v0
  length-marshal_meta_v0 =
      omega (arith, length-concat (le_bytes 8 s.seq_number ∷ s.attnets ∷ []), length-le_bytes)

  meta_v0_fields-marshal : meta_v0_fields (marshal_meta_v0 s) ≡ s
  unfolding marshal_meta_v0 meta_v0_fields
  meta_v0_fields-marshal = λ i. record { seq_number = seq_number i; attnets = attnets i }
    where
      seq_number : le_value (slice 0 8 (marshal_meta_v0 s)) ≡ s.seq_number
      seq_number =
          le_value-slice-concat [] s.seq_number (s.attnets ∷ []) 0 8 v.seq_number_fits
            (omega (arith, length-le_bytes)) (omega arith)

      attnets : slice 8 16 (marshal_meta_v0 s) ≡ s.attnets
      attnets =
          slice-concat (le_bytes 8 s.seq_number ∷ []) s.attnets [] 8 16
            (omega (arith, length-le_bytes)) (omega (arith, length-le_bytes))

  -- The decoder gives back every `MetaDataV0` that is encoded.
  pub unmarshal-marshal_meta_v0 : unmarshal_meta_v0 (marshal_meta_v0 s) ≡ ok s
  unfolding unmarshal_meta_v0
  unmarshal-marshal_meta_v0 = rw length-marshal_meta_v0 (ap ok meta_v0_fields-marshal)

module _ (b : Bytes) (h : IsBytes b) (l : length b ≡ 16) where
  marshal-meta_v0_fields : marshal_meta_v0 (meta_v0_fields b) ≡ b
  unfolding marshal_meta_v0 meta_v0_fields
  marshal-meta_v0_fields =
      rw (le_bytes-slice 0 8 8 b h (omega arith) (omega arith) refl)
        (slice_cons 0 8 16 b _ (omega arith) (omega arith) refl ∙ slice_whole 16 b l)

  meta_v0_fields-IsMetaDataV0 : IsMetaDataV0 (meta_v0_fields b)
  unfolding meta_v0_fields
  meta_v0_fields-IsMetaDataV0 = record {
    seq_number_fits = le_value-slice-lt 0 8 b h (omega arith) (omega arith);
    attnets_fits = slice-IsArray 8 16 8 b h (omega arith) (omega arith);
  }

-- A byte sequence is either of another length than 16, and refused with that length, or is
-- decoded to a `MetaDataV0` whose fields fit their types and whose encoding is that very sequence.
pub unmarshal_meta_v0_exact :
    (b : Bytes)
    → IsBytes b
    → ((length b ≢ 16) × (unmarshal_meta_v0 b ≡ err (bad_length 16 (length b))))
      ⊎ ((s : MetaDataV0) × (unmarshal_meta_v0 b ≡ ok s) × (marshal_meta_v0 s ≡ b) × IsMetaDataV0 s)
unfolding unmarshal_meta_v0
unmarshal_meta_v0_exact b h = elim (Bool-cases (length b == 16)) [
  | inl e ↦
      let l : length b ≡ 16 = (==_iff _ _).0 e in
      inr (meta_v0_fields b, rw l, marshal-meta_v0_fields b h l, meta_v0_fields-IsMetaDataV0 b h l)
  | inr e ↦ inl (ground arith, rw e)
]
