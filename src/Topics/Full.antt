-- ===== src/Topics/Full.antt =====
-- The topics that the gateway builds (`BuildFullTopic` on a fork digest and a name) against what
-- it reads out of a topic: kind, subnet and fork digest.
use mathlib.Core.List.{append_assoc}
use optimum_gateway.Base.{
  ℕ, suc, ◌<◌, ◌≡◌, refl, sym, ap, ◌∙◌, [], ◌∷◌, ◌++◌, arith, Bool, true, false, ◌||◌, ok, length,
  not,
}
use optimum_gateway.Base.Wire.{Bytes}
use optimum_gateway.Utils.Text.{
  codes, contains, has_byte, show_decimal, show_digits, to_lower, trim_space, text_eq, has_prefix,
}
use optimum_gateway.Utils.Text.Laws.{contains-cut, contains_short, text_eq_iff}
use optimum_gateway.Utils.Text.Decimal.{passes_below, passes_at}
use optimum_gateway.Utils.Topics.{
  extract_attestation_topic_index, is_beacon_block_topic, is_attestation_topic, beacon_block_base,
}
use optimum_gateway.Utils.Topics.Index.{parse_uint-show_decimal, show_decimal_plain, extract-concat}
use optimum_gateway.Topics.EthTopics.{build_full_topic}
use optimum_gateway.Topics.TopicMeta.{beacon_block, attestation, parse_topic_meta}

-- The name of a subnet, as `fmt.Sprintf("beacon_attestation_%d", n)` gives it.
abbrev pub subnet_name : ℕ → Bytes
subnet_name n = codes "beacon_attestation_" ++ show_decimal n

subnet_checks : passes_below (λ n. text_eq (trim_space (subnet_name n)) (subnet_name n)) 64 ≡ true
unfolding passes_below show_digits text_eq trim_space
subnet_checks = refl

pub trim_space-subnet_name : (n : ℕ) → n < 64 → trim_space (subnet_name n) ≡ subnet_name n
trim_space-subnet_name n h =
    (text_eq_iff _ _).0
      (passes_at (λ m. text_eq (trim_space (subnet_name m)) (subnet_name m)) 64 subnet_checks n h)

subnet_no_block : passes_below (λ n. not (contains beacon_block_base (subnet_name n))) 64 ≡ true
unfolding passes_below show_digits contains has_prefix
subnet_no_block = refl

subnet_is_attestation :
    passes_below (λ n. contains (codes "beacon_attestation_") (subnet_name n)) 64 ≡ true
unfolding passes_below show_digits contains has_prefix
subnet_is_attestation = refl

-- A name holds a pattern without slash in a full topic only in one of its four parts.
contains-build :
    (p : ℕ) (pat digest name : Bytes)
    → has_byte b'/' (p ∷ pat) ≡ false
    → contains
        (p ∷ pat)
        (codes "/eth2/" ++ (digest ++ (codes "/" ++ (name ++ codes "/ssz_snappy"))))
      ≡ (contains (p ∷ pat) []
          || (contains (p ∷ pat) (codes "eth2")
              || (contains (p ∷ pat) digest
                  || (contains (p ∷ pat) name || contains (p ∷ pat) (codes "ssz_snappy")))))
contains-build p pat digest name h =
    contains-cut b'/' p pat [] _ h
    ∙ ap (◌||◌ (contains (p ∷ pat) [])) (
        contains-cut b'/' p pat (codes "eth2") _ h
        ∙ ap (◌||◌ (contains (p ∷ pat) (codes "eth2"))) (
            contains-cut b'/' p pat digest _ h
            ∙ ap (◌||◌ (contains (p ∷ pat) digest))
                (contains-cut b'/' p pat name (codes "ssz_snappy") h)))

pub length-to_lower : (s : Bytes) → length (to_lower s) ≡ length s
length-to_lower [] = refl
length-to_lower (c ∷ s) = ap suc (length-to_lower s)

-- A digest of eight bytes and the fixed parts hold none of the names.
module _ (digest name : Bytes) (eight : length digest ≡ 8) where
  abbrev full : Bytes
  full = codes "/eth2/" ++ (to_lower digest ++ (codes "/" ++ (name ++ codes "/ssz_snappy")))

  full-block : is_beacon_block_topic full ≡ contains beacon_block_base name
  unfolding is_beacon_block_topic
  full-block =
      contains-build b'b' (codes "eacon_block") (to_lower digest) name (unfold has_byte in refl)
      ∙ rw
          (contains_short beacon_block_base (to_lower digest)
            (omega (arith, length-to_lower digest)))
          (rest (contains beacon_block_base name))
    where
      fixed :
          (contains beacon_block_base [] ≡ false)
          × (contains beacon_block_base (codes "eth2") ≡ false)
          × (contains beacon_block_base (codes "ssz_snappy") ≡ false)
      fixed = unfold contains has_prefix in (refl, refl, refl)

      rest :
          (b : Bool)
          → (contains beacon_block_base []
              || (contains beacon_block_base (codes "eth2")
                  || (false || (b || contains beacon_block_base (codes "ssz_snappy")))))
            ≡ b
      rest b = rw (fixed.0, fixed.1, fixed.2) (ground arith)

  full-attestation : is_attestation_topic full ≡ contains (codes "beacon_attestation_") name
  unfolding is_attestation_topic
  full-attestation =
      contains-build b'b' (codes "eacon_attestation_") (to_lower digest) name
        (unfold has_byte in refl)
      ∙ rw (contains_short pat (to_lower digest) (omega (arith, length-to_lower digest)))
          (rest (contains pat name))
    where
      pat : Bytes
      pat = codes "beacon_attestation_"

      fixed :
          (contains pat [] ≡ false)
          × (contains pat (codes "eth2") ≡ false)
          × (contains pat (codes "ssz_snappy") ≡ false)
      fixed = unfold contains has_prefix in (refl, refl, refl)

      rest :
          (b : Bool)
          → (contains pat []
              || (contains pat (codes "eth2")
                  || (false || (b || contains pat (codes "ssz_snappy")))))
            ≡ b
      rest b = rw (fixed.0, fixed.1, fixed.2) (ground arith)

subnet_name_no_block : (n : ℕ) → n < 64 → contains beacon_block_base (subnet_name n) ≡ false
subnet_name_no_block n h = ground (
  arith,
  passes_at (λ m. not (contains beacon_block_base (subnet_name m))) 64 subnet_no_block n h,
)

module _ (digest : Bytes) (eight : length digest ≡ 8) where
  -- The index is read back from the full topic of a subnet, whatever the digest.
  index_lem :
      (n : ℕ)
      → n < 64
      → extract_attestation_topic_index (build_full_topic digest (subnet_name n)) ≡ ok n
  unfolding build_full_topic
  index_lem n h = rw (trim_space-subnet_name n h) (
      ap extract_attestation_topic_index regroup
      ∙ extract-concat pre (show_decimal n) (codes "ssz_snappy") n (show_decimal_plain n h)
          (unfold has_byte in refl) (parse_uint-show_decimal n h) h)
    where
      pre : Bytes
      pre = codes "/eth2/" ++ (to_lower digest ++ codes "/beacon_attestation")

      regroup :
          codes "/eth2/"
            ++ (to_lower digest ++ (codes "/" ++ (subnet_name n ++ codes "/ssz_snappy")))
          ≡ pre ++ (b'_' ∷ (show_decimal n ++ codes "/ssz_snappy"))
      regroup = sym (
          append_assoc (codes "/eth2/") (to_lower digest ++ codes "/beacon_attestation") _
          ∙ ap (◌++◌ (codes "/eth2/"))
              (append_assoc (to_lower digest) (codes "/beacon_attestation") _))

  -- For an eight-byte digest and each of the 64 subnets, the full topic that the gateway builds is
  -- classified as an attestation topic of exactly that subnet.
  parse_topic_meta-subnet :
      (n : ℕ)
      → n < 64
      → parse_topic_meta (build_full_topic digest (subnet_name n))
        ≡ record { kind = attestation; attestation_subnet = n }
  unfolding parse_topic_meta
  parse_topic_meta-subnet n h = rw (block, att) (rw (index_lem n h))
    where
      shape : build_full_topic digest (subnet_name n) ≡ full digest (subnet_name n) eight
      shape = unfold build_full_topic in rw (trim_space-subnet_name n h)

      block : is_beacon_block_topic (build_full_topic digest (subnet_name n)) ≡ false
      block =
          ap is_beacon_block_topic shape
          ∙ full-block digest (subnet_name n) eight
          ∙ subnet_name_no_block n h

      att : is_attestation_topic (build_full_topic digest (subnet_name n)) ≡ true
      att =
          ap is_attestation_topic shape
          ∙ full-attestation digest (subnet_name n) eight
          ∙ passes_at (λ m. contains (codes "beacon_attestation_") (subnet_name m)) 64
              subnet_is_attestation n h

  -- The full topic of the block name is classified as the beacon-block topic.
  pub parse_topic_meta-block :
      parse_topic_meta (build_full_topic digest beacon_block_base)
      ≡ record { kind = beacon_block; attestation_subnet = 0 }
  unfolding parse_topic_meta
  parse_topic_meta-block = rw block
    where
      shape : build_full_topic digest beacon_block_base ≡ full digest beacon_block_base eight
      shape = unfold build_full_topic trim_space in refl

      block : is_beacon_block_topic (build_full_topic digest beacon_block_base) ≡ true
      block =
          ap is_beacon_block_topic shape
          ∙ full-block digest beacon_block_base eight
          ∙ unfold contains has_prefix in refl
