-- ===== src/Base/Lists.antt =====
-- Lists measured and cut by native numbers, and Go's slice expression `b[lo:hi]`.
use Prim.Native.Nat.{ℕ, zero, suc, ◌+◌, ◌-◌, ◌≤◌, min}
use mathlib.Core.Path.{◌≡◌, refl, sym, ap, ◌∙◌}
use mathlib.Core.List.{List, [], ◌∷◌, ◌++◌}
use native.Mathlib.Omega.{arith}

-- A predicate on every element, by recursion.
abbrev pub Each {κ ℓ} : {E : Type ℓ} (Holds : E → Type κ) (items : List E) → Type κ
Each Holds [] = Unit
Each Holds (item ∷ more) = Holds item × Each Holds more

module _ {ℓ} {A : Type ℓ} where
  abbrev pub length : List A → ℕ
  length [] = 0
  length (x ∷ xs) = suc (length xs)

  abbrev pub take : ℕ → List A → List A
  take zero xs = []
  take (suc n) [] = []
  take (suc n) (x ∷ xs) = x ∷ take n xs

  abbrev pub drop : ℕ → List A → List A
  drop zero xs = xs
  drop (suc n) [] = []
  drop (suc n) (x ∷ xs) = drop n xs

  pub length-append : (xs ys : List A) → length (xs ++ ys) ≡ length xs + length ys
  length-append [] ys = omega arith
  length-append (x ∷ xs) ys = omega (arith, length-append xs ys)

  drop_eq : (m n : ℕ) (xs : List A) → m ≡ n → drop m xs ≡ drop n xs
  drop_eq m n xs e = ap (λ k. drop k xs) e

  take_eq : (m n : ℕ) (xs : List A) → m ≡ n → take m xs ≡ take n xs
  take_eq m n xs e = ap (λ k. take k xs) e

  pub length-take : (n : ℕ) (xs : List A) → length (take n xs) ≡ min n (length xs)
  length-take zero xs = omega arith
  length-take (suc n) [] = omega arith
  length-take (suc n) (x ∷ xs) = omega (arith, length-take n xs)

  pub length-drop : (n : ℕ) (xs : List A) → length (drop n xs) ≡ length xs - n
  length-drop zero xs = omega arith
  length-drop (suc n) [] = omega arith
  length-drop (suc n) (x ∷ xs) = omega (arith, length-drop n xs)

  pub take-append : (xs ys : List A) (n : ℕ) → length xs ≡ n → take n (xs ++ ys) ≡ xs
  take-append [] ys zero h = refl
  take-append [] ys (suc n) h = absurd (omega arith)
  take-append (x ∷ xs) ys zero h = absurd (omega arith)
  take-append (x ∷ xs) ys (suc n) h = ap (◌∷◌ x) (take-append xs ys n (omega arith))

  pub take-append_past :
      (n : ℕ) (xs ys : List A) → length xs ≤ n → take n (xs ++ ys) ≡ xs ++ take (n - length xs) ys
  take-append_past n [] ys h = take_eq n (n - 0) ys (omega arith)
  take-append_past zero (x ∷ xs) ys h = absurd (omega arith)
  take-append_past (suc n) (x ∷ xs) ys h = ap (◌∷◌ x) (
      take-append_past n xs ys (omega arith)
      ∙ ap (◌++◌ xs) (take_eq (n - length xs) (suc n - suc (length xs)) ys (omega arith)))

  pub take_all : (xs : List A) (n : ℕ) → length xs ≡ n → take n xs ≡ xs
  take_all [] zero h = refl
  take_all [] (suc n) h = refl
  take_all (x ∷ xs) zero h = absurd (omega arith)
  take_all (x ∷ xs) (suc n) h = ap (◌∷◌ x) (take_all xs n (omega arith))

  pub drop-append :
      (xs ys : List A) (n : ℕ) → length xs ≤ n → drop n (xs ++ ys) ≡ drop (n - length xs) ys
  drop-append [] ys n h = drop_eq n (n - 0) ys (omega arith)
  drop-append (x ∷ xs) ys zero h = absurd (omega arith)
  drop-append (x ∷ xs) ys (suc n) h =
      drop-append xs ys n (omega arith)
      ∙ drop_eq (n - length xs) (suc n - suc (length xs)) ys (omega arith)

  pub drop-drop : (m n : ℕ) (xs : List A) → drop m (drop n xs) ≡ drop (n + m) xs
  drop-drop m zero xs = drop_eq m (0 + m) xs (omega arith)
  drop-drop zero (suc n) [] = drop_eq (suc n) (suc n + 0) [] (omega arith)
  drop-drop (suc m) (suc n) [] = drop_eq (suc (suc n + m)) (suc n + suc m) [] (omega arith)
  drop-drop m (suc n) (x ∷ xs) =
      drop-drop m n xs ∙ drop_eq (suc (n + m)) (suc n + m) (x ∷ xs) (omega arith)

  pub take-append-drop : (m n : ℕ) (xs : List A) → take m xs ++ take n (drop m xs) ≡ take (m + n) xs
  take-append-drop zero n xs = take_eq n (0 + n) xs (omega arith)
  take-append-drop (suc m) zero [] = take_eq (suc m) (suc m + 0) [] (omega arith)
  take-append-drop (suc m) (suc n) [] = take_eq (suc (m + suc n)) (suc m + suc n) [] (omega arith)
  take-append-drop (suc m) n (x ∷ xs) =
      ap (◌∷◌ x) (take-append-drop m n xs)
      ∙ take_eq (suc (m + n)) (suc m + n) (x ∷ xs) (omega arith)

  pub drop_zero : (k n : ℕ) (xs : List A) → k ≡ 0 → take n (drop k xs) ≡ take n xs
  drop_zero k n xs e = ap (take n) (drop_eq k 0 xs e)

  -- Go's `b[lo:hi]`; out of range Go panics, and each use below has its bounds checked before.
  abbrev pub slice : ℕ → ℕ → List A → List A
  slice lo hi b = take (hi - lo) (drop lo b)

  pub length-slice :
      (lo hi : ℕ) (b : List A) → lo ≤ hi → hi ≤ length b → length (slice lo hi b) ≡ hi - lo
  length-slice lo hi b h k = omega (arith, length-take (hi - lo) (drop lo b), length-drop lo b)

  -- A slice that begins behind the first part of a concatenation.
  pub slice_past :
      (lo hi : ℕ) (xs ys : List A)
      → length xs ≤ lo
      → slice lo hi (xs ++ ys) ≡ slice (lo - length xs) (hi - length xs) ys
  slice_past lo hi xs ys h =
      ap (take (hi - lo)) (drop-append xs ys lo h)
      ∙ take_eq (hi - lo) (hi - length xs - (lo - length xs)) (drop (lo - length xs) ys)
          (omega arith)

  take-take : (n m : ℕ) (xs : List A) → n ≤ m → take n (take m xs) ≡ take n xs
  take-take zero m xs h = refl
  take-take (suc n) zero xs h = absurd (omega arith)
  take-take (suc n) (suc m) [] h = refl
  take-take (suc n) (suc m) (x ∷ xs) h = ap (◌∷◌ x) (take-take n m xs (omega arith))

  -- The first `n` of a slice are the slice of that length at the same place.
  pub slice-slice :
      (n lo hi : ℕ) (b : List A) → lo + n ≤ hi → slice 0 n (slice lo hi b) ≡ slice lo (lo + n) b
  slice-slice n lo hi b h =
      take_eq (n - 0) n (slice lo hi b) (omega arith)
      ∙ take-take n (hi - lo) (drop lo b) (omega arith)
      ∙ take_eq n (lo + n - lo) (drop lo b) (omega arith)

  -- The middle of three parts.
  pub slice_mid :
      (xs ys zs : List A) (lo hi : ℕ)
      → length xs ≡ lo
      → lo + length ys ≡ hi
      → slice lo hi (xs ++ (ys ++ zs)) ≡ ys
  slice_mid xs ys zs lo hi p q =
      slice_past lo hi xs (ys ++ zs) (omega arith)
      ∙ drop_zero (lo - length xs) (hi - length xs - (lo - length xs)) (ys ++ zs) (omega arith)
      ∙ take-append ys zs (hi - length xs - (lo - length xs)) (omega arith)

  pub slice-drop : (k lo hi : ℕ) (b : List A) → slice lo hi (drop k b) ≡ slice (k + lo) (k + hi) b
  slice-drop k lo hi b =
      ap (take (hi - lo)) (drop-drop lo k b)
      ∙ take_eq (hi - lo) (k + hi - (k + lo)) (drop (k + lo) b) (omega arith)

  -- Two slices that meet are one slice.
  pub slice_join :
      (lo mid hi : ℕ) (b : List A)
      → lo ≤ mid
      → mid ≤ hi
      → slice lo mid b ++ slice mid hi b ≡ slice lo hi b
  slice_join lo mid hi b h k =
      ap (λ xs. slice lo mid b ++ take (hi - mid) xs)
        (drop_eq mid (lo + (mid - lo)) b (omega arith) ∙ sym (drop-drop (mid - lo) lo b))
      ∙ take-append-drop (mid - lo) (hi - mid) (drop lo b)
      ∙ take_eq (mid - lo + (hi - mid)) (hi - lo) (drop lo b) (omega arith)
