-- ===== src/Topics/Digest.antt =====
-- The fork digest in a full topic.
use optimum_gateway.Base.{
  ℕ, ◌<◌, ◌≡◌, refl, ◌∙◌, [], ◌∷◌, ◌++◌, arith, true, length, some, take-append, drop-append,
}
use optimum_gateway.Base.Wire.{Bytes}
use optimum_gateway.Utils.Text.{
  codes, show_digits, to_lower, lower_byte, trim_space, text_eq, has_prefix,
}
use optimum_gateway.Utils.Text.Decimal.{passes_below, passes_at}
use optimum_gateway.Utils.Text.Trim.{to_lower_idem}
use optimum_gateway.Utils.Topics.{beacon_block_base}
use optimum_gateway.Topics.EthTopics.{
  build_full_topic, match_topic, get_fork_digest_from_topic, match_descriptor, is_hex, all_bytes,
}
use optimum_gateway.Topics.Full.{subnet_name, length-to_lower, trim_space-subnet_name}

lower_byte-hex : (c : ℕ) → is_hex c ≡ true → is_hex (lower_byte c) ≡ true
unfolding lower_byte
lower_byte-hex c h = ground arith

to_lower-hex : (s : Bytes) → all_bytes is_hex s ≡ true → all_bytes is_hex (to_lower s) ≡ true
unfolding all_bytes
to_lower-hex [] h = refl
to_lower-hex (c ∷ s) h = ground (arith, lower_byte-hex c, to_lower-hex s)

descriptor_checks :
    passes_below (λ n. match_descriptor (subnet_name n ++ codes "/ssz_snappy")) 64 ≡ true
unfolding passes_below show_digits match_descriptor text_eq
descriptor_checks = refl

block_descriptor : match_descriptor (beacon_block_base ++ codes "/ssz_snappy") ≡ true
unfolding match_descriptor text_eq
block_descriptor = refl

digest-match : (t d : Bytes) → match_topic t ≡ some d → get_fork_digest_from_topic t ≡ to_lower d
unfolding get_fork_digest_from_topic
digest-match t d e = rw (e, get_fork_digest_from_topic)

module _ (digest : Bytes) (eight : length digest ≡ 8) (hex : all_bytes is_hex digest ≡ true) where
  match_topic-shape :
      (name : Bytes)
      → match_descriptor (name ++ codes "/ssz_snappy") ≡ true
      → match_topic
          (codes "/eth2/" ++ (to_lower digest ++ (codes "/" ++ (name ++ codes "/ssz_snappy"))))
        ≡ some (to_lower digest)
  unfolding match_topic has_prefix
  match_topic-shape name d = rw (
    take-append low behind 8 size,
    size,
    to_lower-hex digest hex,
    drop-append low behind 8 (omega (arith, size)),
    drop-append low behind 9 (omega (arith, size)),
    size,
    d,
  )
    where
      low : Bytes
      low = to_lower digest

      behind : Bytes
      behind = codes "/" ++ (name ++ codes "/ssz_snappy")

      size : length low ≡ 8
      size = length-to_lower digest ∙ eight

  digest-shape :
      (name : Bytes)
      → trim_space name ≡ name
      → match_descriptor (name ++ codes "/ssz_snappy") ≡ true
      → get_fork_digest_from_topic (build_full_topic digest name) ≡ to_lower digest
  unfolding build_full_topic
  digest-shape name t d =
      rw t (digest-match _ (to_lower digest) (match_topic-shape name d) ∙ to_lower_idem digest)

  -- From the full topic that the gateway builds for an eight-digit hexadecimal digest, of a subnet
  -- or of the blocks, it reads back that digest in lower case.
  pub get_fork_digest-build_full_topic :
      ((n : ℕ)
        → n < 64
        → get_fork_digest_from_topic (build_full_topic digest (subnet_name n)) ≡ to_lower digest)
      × (get_fork_digest_from_topic (build_full_topic digest beacon_block_base) ≡ to_lower digest)
  get_fork_digest-build_full_topic = (
    λ n h. digest-shape (subnet_name n) (trim_space-subnet_name n h) (
        passes_at (λ m. match_descriptor (subnet_name m ++ codes "/ssz_snappy")) 64
          descriptor_checks n h),
    digest-shape beacon_block_base (unfold trim_space in refl) block_descriptor,
  )
