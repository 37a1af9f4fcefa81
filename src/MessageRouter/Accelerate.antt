-- ===== src/MessageRouter/Accelerate.antt =====
-- Which blocks are accelerated while and after the list of slots is refreshed.
use optimum_gateway.Base.{
  ℕ, ◌+◌, ◌≤◌, ◌<◌, ◌≡◌, ◌↔◌, refl, subst, arith, Bool, true, false, ◌||◌, some, List, [], ◌∷◌,
  ◌==◌, ltb, inl, inr, ◌⊎◌, Bool-cases, take, ==_iff,
}
use optimum_gateway.Base.Maps.{RwMap, TtlSet, nat_key}
use optimum_gateway.Forks.{answered}
use optimum_gateway.MessageRouter.{
  Router, ℤ, pos, negsuc, put_slots, apply_poll, should_accelerate_block, decide_accelerate,
}

-- A slot stands on a published list.
abbrev pub listed : ℕ → List ℤ → Bool
listed n [] = false
listed n (pos m ∷ slots) = m == n || listed n slots
listed n (negsuc m ∷ slots) = listed n slots

module _ (known : RwMap ℕ (ℕ × ℕ) nat_key) (accelerated : TtlSet ℕ nat_key) where
  -- The answer for a slot, in terms of the horizon and the set.
  pub should_accelerate_block_iff :
      (s : Router known accelerated) (now slot : ℕ)
      → (should_accelerate_block known accelerated s now slot ≡ false) ↔ (
          (accelerated.get s.accelerate_slots now slot ≡ false)
          × (1 ≤ s.accelerate_to_slot)
          × (slot ≤ s.accelerate_to_slot))
  unfolding should_accelerate_block decide_accelerate
  should_accelerate_block_iff s now slot = (
    λ h. (ground (arith, h), ground (arith, h), ground (arith, h)),
    λ h. ground (arith, h.0, h.1, h.2),
  )

  -- Putting slots touches the set only.
  put_slots-to_slot :
      (at : ℕ) (slots : List ℤ) (s : Router known accelerated)
      → (put_slots known accelerated at slots s).accelerate_to_slot ≡ s.accelerate_to_slot
  unfolding put_slots
  put_slots-to_slot at [] s = refl
  put_slots-to_slot at (pos n ∷ slots) s = put_slots-to_slot at slots _
  put_slots-to_slot at (negsuc n ∷ slots) s = put_slots-to_slot at slots s

  put_slot-get :
      (m : accelerated.Set) (at now n slot : ℕ)
      → at ≤ now
      → now < at + accelerated.ttl
      → accelerated.get (accelerated.put m at n) now slot
        ≡ (n == slot || accelerated.get m now slot)
  put_slot-get m at now n slot l u = elim (Bool-cases (n == slot)) [
    | inl e ↦ rw e (
        subst (λ j. accelerated.get (accelerated.put m at n) now j ≡ true) ((==_iff n slot).0 e)
          (accelerated.get-put_self m at n now l u))
    | inr e ↦ rw e (accelerated.get-put_ne m at n now slot e)
  ]

  -- Within the time that an entry lives, the set has the slots of the list and those before.
  put_slots-get :
      (at now slot : ℕ) (slots : List ℤ) (s : Router known accelerated)
      → at ≤ now
      → now < at + accelerated.ttl
      → accelerated.get (put_slots known accelerated at slots s).accelerate_slots now slot
        ≡ (listed slot slots || accelerated.get s.accelerate_slots now slot)
  unfolding put_slots
  put_slots-get at now slot [] s l u = refl
  put_slots-get at now slot (pos n ∷ slots) s l u =
      rw
        (
          put_slots-get at now slot slots
              (record s { accelerate_slots = accelerated.put s.accelerate_slots at n }) l u,
          put_slot-get s.accelerate_slots at now n slot l u,
        )
        (ground arith)
  put_slots-get at now slot (negsuc n ∷ slots) s l u = put_slots-get at now slot slots s l u

  -- While a published list is put, a slot past the old horizon is never held back, at no point.
  put_slots-fail_open :
      (s : Router known accelerated) (at now n slot : ℕ) (slots : List ℤ)
      → (s.accelerate_to_slot ≡ 0) ⊎ (s.accelerate_to_slot < slot)
      → should_accelerate_block known accelerated
          (put_slots known accelerated at (take n slots) s)
          now
          slot
        ≡ true
  unfolding should_accelerate_block decide_accelerate
  put_slots-fail_open s at now n slot slots h =
      ground (arith, put_slots-to_slot at (take n slots) s, h)

  -- After a poll with a published list, and while its entries live, a block is accelerated exactly
  -- when its slot is past the new horizon, is on the new list, or was accelerated before as
  -- a listed slot.
  pub apply_poll-accelerates :
      (s : Router known accelerated) (at now slot horizon : ℕ) (slots : List ℤ) (made : ℤ)
      → at ≤ now
      → now < at + accelerated.ttl
      → 1 ≤ horizon
      → should_accelerate_block known accelerated
          (apply_poll known accelerated s at (
            answered 200
              (some (record { to_slot = pos horizon; slots = slots; generated_at_ms = made }))))
          now
          slot
        ≡ (ltb horizon slot || listed slot slots || accelerated.get s.accelerate_slots now slot)
  unfolding should_accelerate_block decide_accelerate apply_poll
  apply_poll-accelerates s at now slot horizon slots made l u p =
      ground (arith, put_slots-get at now slot slots s l u)
