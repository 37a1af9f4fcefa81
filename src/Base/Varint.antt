-- ===== src/Base/Varint.antt =====
-- encoding/binary's unsigned varints: `AppendUvarint`, and `ReadUvarint` on a stream of bytes.
use optimum_gateway.Base.{
  ℕ, zero, suc, ◌+◌, ◌*◌, ◌/◌, ◌%◌, ◌<◌, ◌≡◌, refl, ap, ◌∙◌, [], ◌∷◌, ◌++◌, arith, true, false,
  ◌&&◌, ltb, ◌==◌, if◌then◌else◌, Result, ok, err, Bool-cases, inl, inr, ltb→lt,
}
use optimum_gateway.Base.Wire.{Bytes}

pub data VarintError : Type 0 where
  end_of_stream overflow : VarintError

-- `for x >= 0x80 { append(byte(x)|0x80); x >>= 7 }; append(byte(x))`, at most `f` rounds.
unfoldable pub put_uvarint : ℕ → ℕ → Bytes
put_uvarint zero x = x ∷ []
put_uvarint (suc f) x =
    let rest = put_uvarint f (x / 128) in if ltb x 128 then x ∷ [] else (x % 128 + 128) ∷ rest

-- A uint64 needs nine rounds at most.
abbrev pub append_uvarint : ℕ → Bytes
append_uvarint x = put_uvarint 9 x

-- The loop of `ReadUvarint` with `n` of its ten rounds left; `scale` is 2^s. The bits of `x`
-- lie below `scale`, so its `|` is a sum.
unfoldable pub read_uvarint : ℕ → ℕ → ℕ → Bytes → Result VarintError (ℕ × Bytes)
read_uvarint zero x scale r = err overflow
read_uvarint (suc n) x scale [] = err end_of_stream
read_uvarint (suc n) x scale (b ∷ r) =
    let rest = read_uvarint n (x + b % 128 * scale) (scale * 128) r in
    if ltb b 128 then (if n == 0 && ltb 1 b then err overflow else ok (x + b * scale, r)) else rest

-- What fits `f` rounds and a last byte of at most 1: 2^64 for nine.
unfoldable pub uvarint_bound : ℕ → ℕ
uvarint_bound zero = 2
uvarint_bound (suc f) = 128 * uvarint_bound f

split_scaled : (x v scale : ℕ) → x + v % 128 * scale + v / 128 * (scale * 128) ≡ x + v * scale
split_scaled x v scale =
    let e : v % 128 + 128 * (v / 128) ≡ v = omega arith in omega (arith, ap (λ t. t * scale) e)

put_uvarint-more :
    (f v : ℕ)
    → ltb v 128 ≡ false
    → put_uvarint (suc f) v ≡ (v % 128 + 128) ∷ put_uvarint f (v / 128)
unfolding put_uvarint
put_uvarint-more f v e = rw e

read_uvarint-more :
    (n x scale b : ℕ) (r : Bytes)
    → ltb b 128 ≡ false
    → read_uvarint (suc n) x scale (b ∷ r) ≡ read_uvarint n (x + b % 128 * scale) (scale * 128) r
unfolding read_uvarint
read_uvarint-more n x scale b r e = rw e

read_uvarint-last :
    (n x scale v : ℕ) (r : Bytes)
    → v < 128
    → v < uvarint_bound n
    → read_uvarint (suc n) x scale (v ∷ r) ≡ ok (x + v * scale, r)
unfolding read_uvarint uvarint_bound
read_uvarint-last zero x scale v r h k = ground arith
read_uvarint-last (suc n) x scale v r h k = ground arith

put_uvarint-last : (f v : ℕ) → ltb v 128 ≡ true → put_uvarint (suc f) v ≡ v ∷ []
unfolding put_uvarint
put_uvarint-last f v e = rw e

put_uvarint-zero : (v : ℕ) → put_uvarint zero v ≡ v ∷ []
unfolding put_uvarint
put_uvarint-zero v = refl

-- One more round of bytes leaves room for 128 times as much.
bound_suc : (f v : ℕ) → v < uvarint_bound (suc f) → v / 128 < uvarint_bound f
unfolding uvarint_bound
bound_suc f v h = omega arith

bound_zero : (v : ℕ) → v < uvarint_bound zero → v < 128
unfolding uvarint_bound
bound_zero v h = omega arith

pub read_uvarint-put_uvarint :
    (f x v scale : ℕ) (rest : Bytes)
    → v < uvarint_bound f
    → read_uvarint (suc f) x scale (put_uvarint f v ++ rest) ≡ ok (x + v * scale, rest)
read_uvarint-put_uvarint zero x v scale rest h =
    rw (put_uvarint-zero v) (read_uvarint-last zero x scale v rest (bound_zero v h) h)
read_uvarint-put_uvarint (suc f) x v scale rest h = elim (Bool-cases (ltb v 128)) [
  | inl e ↦
      rw (put_uvarint-last f v e) (read_uvarint-last (suc f) x scale v rest (ltb→lt v 128 e) h)
  | inr e ↦
      let again : ltb (v % 128 + 128) 128 ≡ false = ground arith in
      let low : (v % 128 + 128) % 128 ≡ v % 128 = omega arith in
      rw (put_uvarint-more f v e) (
        read_uvarint-more (suc f) x scale (v % 128 + 128) (put_uvarint f (v / 128) ++ rest) again
        ∙ rw low (
            read_uvarint-put_uvarint f (x + v % 128 * scale) (v / 128) (scale * 128) rest
              (bound_suc f v h)
            ∙ ap (λ t. ok (t, rest)) (split_scaled x v scale)))
]
