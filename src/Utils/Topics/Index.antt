-- ===== src/Utils/Topics/Index.antt =====
-- The subnet index in a full attestation topic.
use mathlib.Core.List.{append_assoc}
use optimum_gateway.Base.{
  ℕ, ◌+◌, ◌<◌, ◌≡◌, refl, sym, ap, ◌∙◌, [], ◌∷◌, ◌++◌, arith, Bool, true, false, lt→ltb, ◌==◌, some,
  Result, ok, err, length, slice, length-append, not, ==_iff, slice_mid,
}
use optimum_gateway.Base.Wire.{Bytes}
use optimum_gateway.Utils.Text.{
  NumError, has_byte, last_index_byte, parse_uint, show_decimal, show_digits,
}
use optimum_gateway.Utils.Text.Laws.{last_index_byte-append}
use optimum_gateway.Utils.Text.Decimal.{passes_below, passes_at}
use optimum_gateway.Utils.Topics.{extract_attestation_topic_index}

-- What is printed for a subnet has no underscore and is read back.
abbrev reads_back : ℕ → Bool
reads_back n = elim (parse_uint (show_decimal n)) [ ok m ↦ m == n | err _ ↦ false ]

subnets_read_back : passes_below reads_back 64 ≡ true
unfolding passes_below parse_uint show_digits
subnets_read_back = refl

pub parse_uint-show_decimal : (n : ℕ) → n < 64 → parse_uint (show_decimal n) ≡ ok n
parse_uint-show_decimal n h = from (parse_uint (show_decimal n)) refl
  where
    sound : reads_back n ≡ true
    sound = passes_at reads_back 64 subnets_read_back n h

    from :
        (r : Result NumError ℕ)
        → parse_uint (show_decimal n) ≡ r
        → parse_uint (show_decimal n) ≡ ok n
    from (ok m) e = e ∙ ap ok ((==_iff m n).0 (rw (e, reads_back) at sound))
    from (err x) e = absurd (cc (rw (e, reads_back) at sound))

plain_digits : passes_below (λ n. not (has_byte b'_' (show_decimal n))) 64 ≡ true
unfolding passes_below has_byte show_digits
plain_digits = refl

pub show_decimal_plain : (n : ℕ) → n < 64 → has_byte b'_' (show_decimal n) ≡ false
show_decimal_plain n h =
    ground (arith, passes_at (λ m. not (has_byte b'_' (show_decimal m))) 64 plain_digits n h)

-- The index is the number between the last underscore and the last slash behind it.
pub extract-concat :
    (pre digits tail : Bytes) (n : ℕ)
    → has_byte b'_' digits ≡ false
    → has_byte b'/' tail ≡ false
    → parse_uint digits ≡ ok n
    → n < 64
    → extract_attestation_topic_index (pre ++ (b'_' ∷ (digits ++ (b'/' ∷ tail)))) ≡ ok n
unfolding extract_attestation_topic_index
extract-concat pre digits tail n plain whole parsed fits =
    rw last_slash (rw front (rw last_underscore (rw middle (rw parsed (rw (lt→ltb n 64 fits))))))
  where
    topic : Bytes
    topic = pre ++ (b'_' ∷ (digits ++ (b'/' ∷ tail)))

    end : ℕ
    end = length (pre ++ (b'_' ∷ digits))

    regroup : topic ≡ (pre ++ (b'_' ∷ digits)) ++ (b'/' ∷ tail)
    regroup = sym (append_assoc pre (b'_' ∷ digits) (b'/' ∷ tail))

    last_slash : last_index_byte topic b'/' ≡ some end
    last_slash = rw regroup (last_index_byte-append b'/' (pre ++ (b'_' ∷ digits)) tail whole)

    front : slice 0 end topic ≡ pre ++ (b'_' ∷ digits)
    front =
        rw regroup (slice_mid [] (pre ++ (b'_' ∷ digits)) (b'/' ∷ tail) 0 end refl (omega arith))

    last_underscore : last_index_byte (pre ++ (b'_' ∷ digits)) b'_' ≡ some (length pre)
    last_underscore = last_index_byte-append b'_' pre digits plain

    middle : slice (length pre + 1) end topic ≡ digits
    middle =
        ap (slice (length pre + 1) end)
          (sym (append_assoc pre (b'_' ∷ []) (digits ++ (b'/' ∷ tail))))
        ∙ slice_mid (pre ++ (b'_' ∷ [])) digits (b'/' ∷ tail) (length pre + 1) end
            (omega (arith, length-append pre (b'_' ∷ [])))
            (omega (arith, length-append pre (b'_' ∷ digits)))
