-- ===== src/Topics/EthTopics.antt =====
-- pkg/protocol/topics/eth_topics.go. `match_topic` is the expression
-- `^/eth2/([0-9a-fA-F]{8})/([a-z_]+)(?:_(\d+))?/ssz_snappy$` as a function: its first group.
use optimum_gateway.Base.{
  ℕ, [], ◌∷◌, ◌++◌, Bool, true, false, ◌&&◌, ◌||◌, leb, ltb, ◌==◌, if◌then◌else◌, Option, none,
  some, length, take, drop, not,
}
use optimum_gateway.Base.Wire.{Bytes}
use optimum_gateway.Utils.Text.{codes, has_prefix, text_eq, to_lower, trim_space, is_digit}

-- The rest of a text behind a prefix.
unfoldable pub strip_prefix : Bytes → Bytes → Option Bytes
strip_prefix pre s = if has_prefix pre s then some (drop (length pre) s) else none

abbrev pub is_hex : ℕ → Bool
is_hex c = is_digit c || ((leb b'a' c && leb c b'f') || (leb b'A' c && leb c b'F'))

-- `[a-z_]`
abbrev pub is_name_byte : ℕ → Bool
is_name_byte c = (leb b'a' c && leb c b'z') || c == b'_'

unfoldable pub all_bytes : (ℕ → Bool) → Bytes → Bool
all_bytes p [] = true
all_bytes p (c ∷ s) = p c && all_bytes p s

-- The longest front of bytes that pass the test, and the rest.
unfoldable pub span : (ℕ → Bool) → Bytes → Bytes × Bytes
span p [] = ([], [])
span p (c ∷ s) = let (front, rest) = span p s in if p c then (c ∷ front, rest) else ([], c ∷ s)

unfoldable pub ends_in_underscore : Bytes → Bool
ends_in_underscore [] = false
ends_in_underscore (c ∷ []) = c == b'_'
ends_in_underscore (c ∷ d ∷ s) = ends_in_underscore (d ∷ s)

-- `([a-z_]+)(?:_(\d+))?/ssz_snappy$`: a name; or a name, an underscore and digits.
unfoldable pub match_descriptor : Bytes → Bool
unfolding span ends_in_underscore
match_descriptor s =
    let (name, rest) = span is_name_byte s in
    let (number, tail) = span is_digit rest in
    if text_eq rest (codes "/ssz_snappy")
    then not (length name == 0)
    else (text_eq tail (codes "/ssz_snappy")
        && (not (length number == 0) && (ends_in_underscore name && ltb 1 (length name))))

-- The digest of a full topic, or none where the expression does not match.
unfoldable pub match_topic : Bytes → Option Bytes
unfolding strip_prefix all_bytes match_descriptor
match_topic topic = elim (strip_prefix (codes "/eth2/") topic) [
  | none ↦ none
  | some s ↦
      if length (take 8 s) == 8
        && (all_bytes is_hex (take 8 s)
            && (has_prefix (codes "/") (drop 8 s) && match_descriptor (drop 9 s)))
      then some (take 8 s)
      else none
]

-- `GetForkDigestFromTopic`, the empty text where there is no match.
unfoldable pub get_fork_digest_from_topic : Bytes → Bytes
get_fork_digest_from_topic topic = elim (match_topic topic) [
  | none ↦ []
  | some digest ↦ to_lower digest
]

-- `IsFullEth2Topic`
unfoldable pub is_full_eth2_topic : Bytes → Bool
is_full_eth2_topic s = elim (match_topic (trim_space s)) [ none ↦ false | some _ ↦ true ]

-- `BuildFullTopic`
unfoldable pub build_full_topic : Bytes → Bytes → Bytes
build_full_topic fork_digest descriptor =
    codes "/eth2/"
    ++ (to_lower fork_digest ++ (codes "/" ++ (trim_space descriptor ++ codes "/ssz_snappy")))
