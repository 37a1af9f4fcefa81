-- ===== src/Base/Parts.antt =====
-- A byte sequence as the concatenation of its fields, and the fields as slices of it: what the
-- fixed-size containers of pkg/protocol/consensus have in common.
use optimum_gateway.Base.{
  ℕ, zero, suc, ◌+◌, ◌-◌, ◌≤◌, ◌<◌, ◌≡◌, refl, ap, subst, ◌∙◌, List, [], ◌∷◌, ◌++◌, arith, length,
  take, drop, take-append, take_all, slice, slice_past, slice_join, length-slice, length-append,
  drop_zero,
}
use optimum_gateway.Base.Wire.{
  Bytes, IsBytes, le_bytes, le_value, le_bytes-le_value, le_value-le_bytes, length-le_bytes,
  capacity, le_value-lt,
}

-- The fields one after another.
abbrev pub concat : List Bytes → Bytes
concat [] = []
concat (x ∷ []) = x
concat (x ∷ y ∷ r) = x ++ concat (y ∷ r)

abbrev pub total : List Bytes → ℕ
total [] = 0
total (x ∷ r) = length x + total r

-- The slice at a field's offset is the field.
pub slice-concat :
    (pre : List Bytes) (x : Bytes) (post : List Bytes) (lo hi : ℕ)
    → total pre ≡ lo
    → total pre + length x ≡ hi
    → slice lo hi (concat (pre ++ (x ∷ post))) ≡ x
slice-concat [] x [] lo hi p q =
    drop_zero lo (hi - lo) x (omega arith) ∙ take_all x (hi - lo) (omega arith)
slice-concat [] x (y ∷ r) lo hi p q =
    drop_zero lo (hi - lo) (x ++ concat (y ∷ r)) (omega arith)
    ∙ take-append x (concat (y ∷ r)) (hi - lo) (omega arith)
slice-concat (w ∷ []) x post lo hi p q =
    slice_past lo hi w (concat (x ∷ post)) (omega arith)
    ∙ slice-concat [] x post (lo - length w) (hi - length w) (omega arith) (omega arith)
slice-concat (w ∷ v ∷ pre) x post lo hi p q =
    slice_past lo hi w (concat (v ∷ (pre ++ (x ∷ post)))) (omega arith)
    ∙ slice-concat (v ∷ pre) x post (lo - length w) (hi - length w) (omega arith) (omega arith)

-- A slice followed by what the next slice holds.
pub slice_cons :
    (lo mid hi : ℕ) (b rest : Bytes)
    → lo ≤ mid
    → mid ≤ hi
    → rest ≡ slice mid hi b
    → slice lo mid b ++ rest ≡ slice lo hi b
slice_cons lo mid hi b rest h k e = ap (◌++◌ (slice lo mid b)) e ∙ slice_join lo mid hi b h k

pub IsBytes-drop : (n : ℕ) (b : Bytes) → IsBytes b → IsBytes (drop n b)
IsBytes-drop zero b h = h
IsBytes-drop (suc n) [] h = tt
IsBytes-drop (suc n) (x ∷ b) h = IsBytes-drop n b h.1

pub IsBytes-take : (n : ℕ) (b : Bytes) → IsBytes b → IsBytes (take n b)
IsBytes-take zero b h = tt
IsBytes-take (suc n) [] h = tt
IsBytes-take (suc n) (x ∷ b) h = (h.0, IsBytes-take n b h.1)

pub IsBytes-slice : (lo hi : ℕ) (b : Bytes) → IsBytes b → IsBytes (slice lo hi b)
IsBytes-slice lo hi b h = IsBytes-take (hi - lo) (drop lo b) (IsBytes-drop lo b h)

pub IsBytes-append : (a b : Bytes) → IsBytes a → IsBytes b → IsBytes (a ++ b)
IsBytes-append [] b h k = k
IsBytes-append (x ∷ a) b h k = (h.0, IsBytes-append a b h.1 k)

-- An integer read from a slice is written back as that slice.
pub le_bytes-slice :
    (lo hi n : ℕ) (b : Bytes)
    → IsBytes b
    → lo ≤ hi
    → hi ≤ length b
    → hi - lo ≡ n
    → le_bytes n (le_value (slice lo hi b)) ≡ slice lo hi b
le_bytes-slice lo hi n b h p q e =
    ap (λ k. le_bytes k (le_value (slice lo hi b))) (omega (arith, length-slice lo hi b p q))
    ∙ le_bytes-le_value (slice lo hi b) (IsBytes-slice lo hi b h)

-- `[n]byte`
abbrev pub IsArray : ℕ → Bytes → Type 0
IsArray n b = (length b ≡ n) × IsBytes b

-- The integer at a field's offset is the integer written there.
pub le_value-slice-concat :
    (pre : List Bytes) (v : ℕ) (post : List Bytes) (lo hi : ℕ)
    → v < capacity 8
    → total pre ≡ lo
    → lo + 8 ≡ hi
    → le_value (slice lo hi (concat (pre ++ (le_bytes 8 v ∷ post)))) ≡ v
le_value-slice-concat pre v post lo hi h p q =
    ap le_value (slice-concat pre (le_bytes 8 v) post lo hi p (omega (arith, length-le_bytes 8 v)))
    ∙ le_value-le_bytes 8 v h

-- A concatenation is as long as its fields together.
pub length-concat : (xs : List Bytes) → length (concat xs) ≡ total xs
length-concat [] = refl
length-concat (x ∷ []) = omega arith
length-concat (x ∷ y ∷ r) = omega (arith, length-append x (concat (y ∷ r)), length-concat (y ∷ r))

pub slice_whole : (n : ℕ) (b : Bytes) → length b ≡ n → slice 0 n b ≡ b
slice_whole n b h = drop_zero 0 (n - 0) b refl ∙ take_all b (n - 0) (omega arith)

pub slice-IsArray :
    (lo hi n : ℕ) (b : Bytes) → IsBytes b → hi ≤ length b → lo + n ≡ hi → IsArray n (slice lo hi b)
slice-IsArray lo hi n b h p q = (omega (arith, length-slice lo hi b), IsBytes-slice lo hi b h)

pub le_value-slice-lt :
    (lo hi : ℕ) (b : Bytes)
    → IsBytes b
    → hi ≤ length b
    → lo + 8 ≡ hi
    → le_value (slice lo hi b) < capacity 8
le_value-slice-lt lo hi b h p q =
    subst (λ n. le_value (slice lo hi b) < capacity n) (omega (arith, length-slice lo hi b))
      (le_value-lt (slice lo hi b) (IsBytes-slice lo hi b h))
