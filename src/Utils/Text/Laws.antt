-- ===== src/Utils/Text/Laws.antt =====
-- Texts cut at a byte: where the last one stands, and what a pattern without it can match.
use optimum_gateway.Base.{
  ℕ, ◌≡◌, ◌↔◌, refl, ◌∙◌, [], ◌∷◌, ◌++◌, arith, true, false, ◌||◌, some, none, length, ◌<◌, ==_refl,
}
use optimum_gateway.Base.Wire.{Bytes}
use optimum_gateway.Utils.Text.{has_prefix, contains, has_byte, last_index_byte, text_eq}

pub text_eq_iff : (s t : Bytes) → (text_eq s t ≡ true) ↔ (s ≡ t)
unfolding text_eq
text_eq_iff [] [] = (λ h. refl, λ h. refl)
text_eq_iff [] (y ∷ ys) = (λ h. absurd (ground arith), λ h. absurd (ground arith))
text_eq_iff (x ∷ xs) [] = (λ h. absurd (ground arith), λ h. absurd (ground arith))
text_eq_iff (x ∷ xs) (y ∷ ys) =
    (λ h. ground (arith, text_eq_iff xs ys), λ h. ground (arith, text_eq_iff xs ys))

last_index_byte-none : (c : ℕ) (xs : Bytes) → has_byte c xs ≡ false → last_index_byte xs c ≡ none
unfolding last_index_byte has_byte
last_index_byte-none c [] h = refl
last_index_byte-none c (x ∷ xs) h = ground (arith, last_index_byte-none c xs)

-- The last `c` of a text that is followed by no other.
pub last_index_byte-append :
    (c : ℕ) (xs ys : Bytes)
    → has_byte c ys ≡ false
    → last_index_byte (xs ++ (c ∷ ys)) c ≡ some (length xs)
unfolding last_index_byte
last_index_byte-append c [] ys h = rw (last_index_byte-none c ys h) (rw (==_refl c))
last_index_byte-append c (x ∷ xs) ys h = rw (last_index_byte-append c xs ys h)

-- A prefix without `c` does not reach over a `c`.
has_prefix-cut :
    (c : ℕ) (pat xs ys : Bytes)
    → has_byte c pat ≡ false
    → has_prefix pat (xs ++ (c ∷ ys)) ≡ has_prefix pat xs
unfolding has_prefix has_byte
has_prefix-cut c [] xs ys h = refl
has_prefix-cut c (p ∷ pat) [] ys h = ground arith
has_prefix-cut c (p ∷ pat) (x ∷ xs) ys h = ground (arith, has_prefix-cut c pat xs ys)

contains-nonempty :
    (c : ℕ) (p : ℕ) (pat ys : Bytes)
    → has_byte c (p ∷ pat) ≡ false
    → contains (p ∷ pat) (c ∷ ys) ≡ contains (p ∷ pat) ys
unfolding contains has_prefix has_byte
contains-nonempty c p pat ys h = ground arith

-- A pattern without `c` occurs before or behind it.
pub contains-cut :
    (c p : ℕ) (pat xs ys : Bytes)
    → has_byte c (p ∷ pat) ≡ false
    → contains (p ∷ pat) (xs ++ (c ∷ ys)) ≡ (contains (p ∷ pat) xs || contains (p ∷ pat) ys)
unfolding contains has_prefix
contains-cut c p pat [] ys h = contains-nonempty c p pat ys h ∙ refl
contains-cut c p pat (x ∷ xs) ys h =
    let a = has_prefix-cut c (p ∷ pat) (x ∷ xs) ys h in
    ground (arith, a, contains-cut c p pat xs ys h)

has_prefix_short : (pat s : Bytes) → length s < length pat → has_prefix pat s ≡ false
unfolding has_prefix
has_prefix_short [] s h = absurd (omega arith)
has_prefix_short (p ∷ pat) [] h = refl
has_prefix_short (p ∷ pat) (c ∷ s) h = ground (arith, has_prefix_short pat s)

-- A text shorter than the pattern does not contain it.
pub contains_short : (pat s : Bytes) → length s < length pat → contains pat s ≡ false
unfolding contains has_prefix
contains_short pat [] h = has_prefix_short pat [] h
contains_short pat (c ∷ s) h =
    rw (has_prefix_short pat (c ∷ s) h) (contains_short pat s (omega arith))
