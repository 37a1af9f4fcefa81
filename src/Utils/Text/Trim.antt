-- ===== src/Utils/Text/Trim.antt =====
-- `TrimSpace` and `ToLower` together: doing both twice is doing them once.
use mathlib.Core.List.{reverse, reverse-append, reverse-reverse, reverse-cons, map-append}
use optimum_gateway.Base.{
  ℕ, ◌≡◌, refl, sym, ap, ◌∙◌, subst, [], ◌∷◌, ◌++◌, arith, false, Bool-cases, inl, inr,
}
use optimum_gateway.Base.Wire.{Bytes}
use optimum_gateway.Utils.Text.{lower_byte, to_lower, is_space, trim_left, trim_space}

-- The text does not begin with white space.
abbrev BeginsPlain : Bytes → Type 0
BeginsPlain [] = Unit
BeginsPlain (c ∷ s) = is_space c ≡ false

trim_left-plain : (s : Bytes) → BeginsPlain (trim_left s)
unfolding trim_left
trim_left-plain [] = tt
trim_left-plain (c ∷ s) = elim (Bool-cases (is_space c)) [
  | inl e ↦ rw e (trim_left-plain s)
  | inr e ↦ rw e e
]

trim_left_id : (s : Bytes) → BeginsPlain s → trim_left s ≡ s
unfolding trim_left
trim_left_id [] h = refl
trim_left_id (c ∷ s) h = rw h

trim_left-suffix : (s : Bytes) → (pre : Bytes) × (s ≡ pre ++ trim_left s)
unfolding trim_left
trim_left-suffix [] = ([], refl)
trim_left-suffix (c ∷ s) = elim (Bool-cases (is_space c)) [
  | inl e ↦ let (pre, p) = trim_left-suffix s in (c ∷ pre, rw e (ap (◌∷◌ c) p))
  | inr e ↦ ([], rw e)
]

BeginsPlain-front : (s t : Bytes) → BeginsPlain (s ++ t) → BeginsPlain s
BeginsPlain-front [] t h = tt
BeginsPlain-front (c ∷ s) t h = h

-- Neither end is white space.
abbrev pub IsTrimmed : Bytes → Type 0
IsTrimmed s = BeginsPlain s × BeginsPlain (reverse s)

pub trim_space-IsTrimmed : (s : Bytes) → IsTrimmed (trim_space s)
unfolding trim_space
trim_space-IsTrimmed s = (front, rw (reverse-reverse b) (trim_left-plain (reverse a)))
  where
    a : Bytes
    a = trim_left s

    b : Bytes
    b = trim_left (reverse a)

    whole : a ≡ reverse b ++ reverse (trim_left-suffix (reverse a)).0
    whole =
        sym (reverse-reverse a)
        ∙ ap reverse (trim_left-suffix (reverse a)).1
        ∙ reverse-append (trim_left-suffix (reverse a)).0 b

    front : BeginsPlain (reverse b)
    front =
        BeginsPlain-front (reverse b) (reverse (trim_left-suffix (reverse a)).0)
          (subst BeginsPlain whole (trim_left-plain s))

pub trim_space_id : (s : Bytes) → IsTrimmed s → trim_space s ≡ s
unfolding trim_space
trim_space_id s h = rw (trim_left_id s h.0) (rw (trim_left_id (reverse s) h.1) (reverse-reverse s))

is_space-lower_byte : (c : ℕ) → is_space (lower_byte c) ≡ is_space c
unfolding is_space lower_byte
is_space-lower_byte c = ground arith

BeginsPlain-to_lower : (s : Bytes) → BeginsPlain s → BeginsPlain (to_lower s)
BeginsPlain-to_lower [] h = tt
BeginsPlain-to_lower (c ∷ s) h = is_space-lower_byte c ∙ h

to_lower-reverse : (s : Bytes) → to_lower (reverse s) ≡ reverse (to_lower s)
to_lower-reverse [] = refl
to_lower-reverse (c ∷ s) =
    rw (reverse-cons c s, reverse-cons (lower_byte c) (to_lower s))
      (map-append lower_byte (reverse s) (c ∷ [])
        ∙ ap (λ t. t ++ lower_byte c ∷ []) (to_lower-reverse s))

to_lower-IsTrimmed : (s : Bytes) → IsTrimmed s → IsTrimmed (to_lower s)
to_lower-IsTrimmed s h =
    (BeginsPlain-to_lower s h.0, rw (← to_lower-reverse s) (BeginsPlain-to_lower (reverse s) h.1))

lower_byte_idem : (c : ℕ) → lower_byte (lower_byte c) ≡ lower_byte c
unfolding lower_byte
lower_byte_idem c = ground arith

pub to_lower_idem : (s : Bytes) → to_lower (to_lower s) ≡ to_lower s
to_lower_idem [] = refl
to_lower_idem (c ∷ s) = cc (lower_byte_idem c, to_lower_idem s)

-- Trimming and lowering a text that was trimmed and lowered changes nothing.
pub lower-trim_idem :
    (s : Bytes) → to_lower (trim_space (to_lower (trim_space s))) ≡ to_lower (trim_space s)
lower-trim_idem s =
    ap to_lower (
      trim_space_id (to_lower (trim_space s))
        (to_lower-IsTrimmed (trim_space s) (trim_space-IsTrimmed s)))
    ∙ to_lower_idem (trim_space s)
