-- ===== src/Consensus/MessageId.antt =====
-- pkg/protocol/consensus/message_id.go. The hash of optimum-common is a parameter. A topic is the
-- list of its bytes; `hash_input` is what `hashData` hands to the hash.
use optimum_gateway.Base.{◌<◌, ◌≡◌, refl, sym, ap, ◌∙◌, [], ◌∷◌, ◌++◌, arith, ok, err, length, take}
use optimum_gateway.Base.Wire.{
  Bytes, le_bytes, le_value, capacity, le_value-le_bytes, length-le_bytes,
}
use optimum_gateway.Utils.Snappy.{Snappy, decode_snappy, max_gossip_payload_size}

abbrev pub valid_snappy : Bytes
valid_snappy = 1 ∷ 0 ∷ 0 ∷ 0 ∷ []

abbrev pub invalid_snappy : Bytes
invalid_snappy = 0 ∷ 0 ∷ 0 ∷ 0 ∷ []

unfoldable pub hash_input : Bytes → Bytes → Bytes → Bytes
hash_input snappy_sign topic content =
    snappy_sign ++ (le_bytes 8 (length topic) ++ (topic ++ content))

-- `hashData`, with `SHA256String` of optimum-common as `sha`.
unfoldable pub hash_data : (Bytes → Bytes) → Bytes → Bytes → Bytes → Bytes
hash_data sha snappy_sign topic content = take 20 (sha (hash_input snappy_sign topic content))

unfoldable pub msg_id : Snappy → (Bytes → Bytes) → Bytes → Bytes → Bytes
msg_id z sha topic msg_data = elim (decode_snappy z msg_data max_gossip_payload_size) [
  | ok decoded ↦ hash_data sha valid_snappy topic decoded
  | err _ ↦ hash_data sha invalid_snappy topic msg_data
]

append_cancel :
    (xs us ys vs : Bytes) → length xs ≡ length ys → xs ++ us ≡ ys ++ vs → (xs ≡ ys) × (us ≡ vs)
append_cancel [] us [] vs l e = (refl, e)
append_cancel [] us (y ∷ ys) vs l e = absurd (omega arith)
append_cancel (x ∷ xs) us [] vs l e = absurd (omega arith)
append_cancel (x ∷ xs) us (y ∷ ys) vs l e =
    let (p, q) = append_cancel xs us ys vs (omega arith) (cc) in (cc, q)

-- Two inputs of the hash are equal only if sign, topic and payload are: the length prefix keeps a
-- topic from running into a payload.
pub hash_input_injective :
    (sign topic content sign' topic' content' : Bytes)
    → length sign ≡ 4
    → length sign' ≡ 4
    → length topic < capacity 8
    → length topic' < capacity 8
    → hash_input sign topic content ≡ hash_input sign' topic' content'
    → (sign ≡ sign') × (topic ≡ topic') × (content ≡ content')
unfolding hash_input
hash_input_injective sign topic content sign' topic' content' s s' t t' e =
    let (p, e1) = append_cancel sign _ sign' _ (s ∙ sym s') e in
    let (q, e2) =
      append_cancel (le_bytes 8 (length topic)) _ (le_bytes 8 (length topic')) _
        (length-le_bytes 8 _ ∙ sym (length-le_bytes 8 _)) e1 in
    let same : length topic ≡ length topic' =
      sym (le_value-le_bytes 8 _ t) ∙ ap le_value q ∙ le_value-le_bytes 8 _ t' in
    let (r, c) = append_cancel topic content topic' content' same e2 in (p, r, c)
