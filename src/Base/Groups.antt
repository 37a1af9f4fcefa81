-- ===== src/Base/Groups.antt =====
-- A Go map of slices, `m[k] = append(m[k], v)`, as a list of groups in the order of their keys'
-- first writes.
use optimum_gateway.Base.{
  ℕ, suc, ◌+◌, ◌≡◌, refl, arith, true, false, Option, none, some, List, [], ◌∷◌, ◌++◌,
  if◌then◌else◌, inl, inr, Bool-cases, length, length-append,
}
use optimum_gateway.Base.Maps.{Key, assoc_load, same_eq}

-- A nil slice where nothing is stored.
abbrev pub or_nil : {V : Type 0} → Option (List V) → List V
or_nil none = []
or_nil (some vs) = vs

module _ {K V : Type 0} (e : Key K) where
  unfoldable pub append_at : K → V → List (K × List V) → List (K × List V)
  append_at k v [] = (k, v ∷ []) ∷ []
  append_at k v ((j, vs) ∷ m) =
      let rest = append_at k v m in if e.same j k then (j, vs ++ (v ∷ [])) ∷ m else (j, vs) ∷ rest

  -- How many values all groups hold.
  abbrev pub count : List (K × List V) → ℕ
  count [] = 0
  count ((j, vs) ∷ m) = length vs + count m

  pub count-append_at :
      (k : K) (v : V) (m : List (K × List V)) → count (append_at k v m) ≡ suc (count m)
  unfolding append_at
  count-append_at k v [] = refl
  count-append_at k v ((j, vs) ∷ m) =
      ground (arith, count-append_at k v m, length-append vs (v ∷ []))

  pub assoc_load-append_at :
      (k : K) (v : V) (m : List (K × List V)) (i : K)
      → or_nil (assoc_load e (append_at k v m) i)
        ≡ (if e.same k i then or_nil (assoc_load e m i) ++ (v ∷ []) else or_nil (assoc_load e m i))
  unfolding append_at
  assoc_load-append_at k v [] i = ground arith
  assoc_load-append_at k v ((j, vs) ∷ m) i = elim (Bool-cases (e.same j k)) [
    | inl y ↦ ground (arith, same_eq e j k i y)
    | inr y ↦ ground (arith, assoc_load-append_at k v m i, other j k i y)
  ]
    where
      other : (a b c : K) → e.same a b ≡ false → e.same b c ≡ true → e.same a c ≡ false
      other a b c p q = elim (Bool-cases (e.same a c)) [
        | inl r ↦ absurd (cc ((e.same_iff b c).0 q))
        | inr r ↦ r
      ]

  -- `m[k] = append(m[k], vs...)`
  unfoldable pub append_all : K → List V → List (K × List V) → List (K × List V)
  append_all k new [] = (k, new) ∷ []
  append_all k new ((j, vs) ∷ m) =
      let rest = append_all k new m in if e.same j k then (j, vs ++ new) ∷ m else (j, vs) ∷ rest

  pub assoc_load-append_all :
      (k : K) (new : List V) (m : List (K × List V)) (i : K)
      → or_nil (assoc_load e (append_all k new m) i)
        ≡ (if e.same k i then or_nil (assoc_load e m i) ++ new else or_nil (assoc_load e m i))
  unfolding append_all
  assoc_load-append_all k new [] i = ground arith
  assoc_load-append_all k new ((j, vs) ∷ m) i = elim (Bool-cases (e.same j k)) [
    | inl y ↦ ground (arith, same_eq e j k i y)
    | inr y ↦ ground (arith, assoc_load-append_all k new m i, apart j k i y)
  ]
    where
      apart : (a b c : K) → e.same a b ≡ false → e.same b c ≡ true → e.same a c ≡ false
      apart a b c p q = elim (Bool-cases (e.same a c)) [
        | inl r ↦ absurd (cc ((e.same_iff b c).0 q))
        | inr r ↦ r
      ]
