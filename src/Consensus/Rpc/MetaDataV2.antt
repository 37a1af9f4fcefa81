-- ===== src/Consensus/Rpc/MetaDataV2.antt =====
-- `MetaDataV2` of pkg/protocol/consensus/rpc.go (25 bytes), its codec, and that the two halves of
-- the codec are inverse to one another.
use optimum_gateway.Base.{
  ℕ, ◌≡◌, ◌≢◌, ◌⊎◌, refl, ap, ◌∙◌, [], ◌∷◌, ◌++◌, arith, Result, ok, err, length, slice, ==_iff,
  Bool-cases, ◌==◌, inl, inr, guard, ◌>>◌,
}
use optimum_gateway.Base.Wire.{Bytes, IsBytes, le_bytes, le_value, length-le_bytes}
use optimum_gateway.Base.Parts.{
  slice-concat, slice_cons, le_bytes-slice, IsArray, le_value-slice-concat, length-concat,
  slice_whole, slice-IsArray, le_value-slice-lt,
}
use optimum_gateway.Consensus.Types.{SszError, bad_length, IsUint64}

abbrev pub meta_v2_size : ℕ
meta_v2_size = 25

pub record MetaDataV2 : Type 0 where
  pub seq_number : ℕ
  pub attnets : Bytes
  pub syncnets : Bytes
  pub custody_group_count : ℕ

-- What Go's types guarantee.
pub record IsMetaDataV2 (s : MetaDataV2) : Type 0 where
  pub seq_number_fits : IsUint64 s.seq_number
  pub attnets_fits : IsArray 8 s.attnets
  pub syncnets_fits : IsArray 1 s.syncnets
  pub custody_group_count_fits : IsUint64 s.custody_group_count

-- `MetaDataV2.MarshalSSZ`, which always succeeds.
unfoldable pub marshal_meta_v2 : MetaDataV2 → Bytes
marshal_meta_v2 s =
    le_bytes 8 s.seq_number ++ (s.attnets ++ (s.syncnets ++ le_bytes 8 s.custody_group_count))

-- The fields that `MetaDataV2.UnmarshalSSZ` reads after its length check.
unfoldable pub meta_v2_fields : Bytes → MetaDataV2
meta_v2_fields b = record {
  seq_number = le_value (slice 0 8 b);
  attnets = slice 8 16 b;
  syncnets = slice 16 17 b;
  custody_group_count = le_value (slice 17 25 b);
}

unfoldable pub unmarshal_meta_v2 : Bytes → Result SszError MetaDataV2
unfolding meta_v2_fields
unmarshal_meta_v2 b = do
  guard (length b == meta_v2_size) (bad_length meta_v2_size (length b))
  ok (meta_v2_fields b)

module _ (s : MetaDataV2) (v : IsMetaDataV2 s) where
  length-marshal_meta_v2 : length (marshal_meta_v2 s) ≡ 25
  unfolding marshal_meta_v2
  length-marshal_meta_v2 = omega (
    arith,
    length-concat
        (le_bytes 8 s.seq_number ∷ s.attnets ∷ s.syncnets ∷ le_bytes 8 s.custody_group_count ∷ []),
    length-le_bytes,
  )

  meta_v2_fields-marshal : meta_v2_fields (marshal_meta_v2 s) ≡ s
  unfolding marshal_meta_v2 meta_v2_fields
  meta_v2_fields-marshal = λ i. record {
    seq_number = seq_number i;
    attnets = attnets i;
    syncnets = syncnets i;
    custody_group_count = custody_group_count i;
  }
    where
      seq_number : le_value (slice 0 8 (marshal_meta_v2 s)) ≡ s.seq_number
      seq_number =
          le_value-slice-concat [] s.seq_number
            (s.attnets ∷ s.syncnets ∷ le_bytes 8 s.custody_group_count ∷ []) 0 8 v.seq_number_fits
            (omega (arith, length-le_bytes)) (omega arith)

      attnets : slice 8 16 (marshal_meta_v2 s) ≡ s.attnets
      attnets =
          slice-concat (le_bytes 8 s.seq_number ∷ []) s.attnets
            (s.syncnets ∷ le_bytes 8 s.custody_group_count ∷ []) 8 16
            (omega (arith, length-le_bytes)) (omega (arith, length-le_bytes))

      syncnets : slice 16 17 (marshal_meta_v2 s) ≡ s.syncnets
      syncnets =
          slice-concat (le_bytes 8 s.seq_number ∷ s.attnets ∷ []) s.syncnets
            (le_bytes 8 s.custody_group_count ∷ []) 16 17 (omega (arith, length-le_bytes))
            (omega (arith, length-le_bytes))

      custody_group_count : le_value (slice 17 25 (marshal_meta_v2 s)) ≡ s.custody_group_count
      custody_group_count =
          le_value-slice-concat (le_bytes 8 s.seq_number ∷ s.attnets ∷ s.syncnets ∷ [])
            s.custody_group_count [] 17 25 v.custody_group_count_fits
            (omega (arith, length-le_bytes)) (omega arith)

  -- The decoder gives back every `MetaDataV2` that is encoded.
  pub unmarshal-marshal_meta_v2 : unmarshal_meta_v2 (marshal_meta_v2 s) ≡ ok s
  unfolding unmarshal_meta_v2
  unmarshal-marshal_meta_v2 = rw length-marshal_meta_v2 (ap ok meta_v2_fields-marshal)

module _ (b : Bytes) (h : IsBytes b) (l : length b ≡ 25) where
  marshal-meta_v2_fields : marshal_meta_v2 (meta_v2_fields b) ≡ b
  unfolding marshal_meta_v2 meta_v2_fields
  marshal-meta_v2_fields =
      rw
        (
          le_bytes-slice 0 8 8 b h (omega arith) (omega arith) refl,
          le_bytes-slice 17 25 8 b h (omega arith) (omega arith) refl,
        )
        (slice_cons 0 8 25 b _ (omega arith) (omega arith) (
            slice_cons 8 16 25 b _ (omega arith) (omega arith)
              (slice_cons 16 17 25 b _ (omega arith) (omega arith) refl))
          ∙ slice_whole 25 b l)

  meta_v2_fields-IsMetaDataV2 : IsMetaDataV2 (meta_v2_fields b)
  unfolding meta_v2_fields
  meta_v2_fields-IsMetaDataV2 = record {
    seq_number_fits = le_value-slice-lt 0 8 b h (omega arith) (omega arith);
    attnets_fits = slice-IsArray 8 16 8 b h (omega arith) (omega arith);
    syncnets_fits = slice-IsArray 16 17 1 b h (omega arith) (omega arith);
    custody_group_count_fits = le_value-slice-lt 17 25 b h (omega arith) (omega arith);
  }

-- A byte sequence is either of another length than 25, and refused with that length, or is
-- decoded to a `MetaDataV2` whose fields fit their types and whose encoding is that very sequence.
pub unmarshal_meta_v2_exact :
    (b : Bytes)
    → IsBytes b
    → ((length b ≢ 25) × (unmarshal_meta_v2 b ≡ err (bad_length 25 (length b))))
      ⊎ ((s : MetaDataV2) × (unmarshal_meta_v2 b ≡ ok s) × (marshal_meta_v2 s ≡ b) × IsMetaDataV2 s)
unfolding unmarshal_meta_v2
unmarshal_meta_v2_exact b h = elim (Bool-cases (length b == 25)) [
  | inl e ↦
      let l : length b ≡ 25 = (==_iff _ _).0 e in
      inr (meta_v2_fields b, rw l, marshal-meta_v2_fields b h l, meta_v2_fields-IsMetaDataV2 b h l)
  | inr e ↦ inl (ground arith, rw e)
]
