-- ===== src/MessageRouter/Forward.antt =====
-- Which messages `ShouldForwardMessageToMumP2P` and `ShouldForwardMessageToCLP2P` let through.
use optimum_gateway.Base.{
  ℕ, ◌≡◌, ◌≢◌, ◌↔◌, ◌≤◌, ◌<◌, ◌+◌, ◌||◌, List, some, refl, sym, ap, ◌∙◌, arith, true, false, ◌&&◌,
  not, Result, ok, err, ltb, inl, inr, ◌⊎◌, Bool-cases,
}
use optimum_gateway.Base.Wire.{Bytes}
use optimum_gateway.Base.Maps.{RwMap, TtlSet, nat_key}
use optimum_gateway.Utils.Snappy.{Snappy}
use optimum_gateway.Utils.AttestationFields.{parse_attestation, ParseError}
use optimum_gateway.Utils.Text.{text_eq}
use optimum_gateway.Topics.TopicMeta.{TopicKind, unknown, beacon_block, attestation}
use optimum_gateway.AuthToken.{Manager, is_enabled, has_valid_token}
use optimum_gateway.ChainState.{diff_uint64}
use optimum_gateway.MessageRouter.{
  Router, GatewayTypes, forward_to_mump2p, forward_to_clp2p, is_known_validator, own_type,
  should_accelerate_block, apply_poll, ℤ, pos,
}
use optimum_gateway.Forks.{answered}
use optimum_gateway.MessageRouter.Accelerate.{listed, apply_poll-accelerates}

module _ (known : RwMap ℕ (ℕ × ℕ) nat_key) (accelerated : TtlSet ℕ nat_key)
    (types : GatewayTypes) where
  -- What an attestation needs: a live token where auth is on, a partner's gateway, and the payload
  -- of an attestation of the current slot by a validator that is known.
  abbrev pub IsForwardable : Snappy → Router known accelerated → Manager → ℕ → ℕ → Bytes → Type 0
  IsForwardable z s m now slot_now payload =
      ((is_enabled m && not (has_valid_token m now)) ≡ false)
      × (text_eq (own_type m) types.partner ≡ true)
      × (attester : ℕ) × (parse_attestation z payload ≡ ok (attester, slot_now))
      × (is_known_validator known accelerated s attester ≡ true)

  same_slot : (a b : ℕ) → (ltb 0 (diff_uint64 a b) ≡ false) ↔ (a ≡ b)
  unfolding diff_uint64
  same_slot a b = (λ h. ground (arith, h), λ h. ground (arith, h))

  checks :
      (z : Snappy) (s : Router known accelerated) (m : Manager) (now slot_now : ℕ) (payload : Bytes)
      → (forward_to_mump2p known accelerated types z s m now slot_now attestation payload ≡ true)
        ↔ IsForwardable z s m now slot_now payload
  unfolding forward_to_mump2p
  checks z s m now slot_now payload = (
    by_fields (parse_attestation z payload) refl,
    λ (live, partner, attester, parsed, known_one).
        rw (live, partner, parsed, (same_slot slot_now slot_now).1 refl) known_one,
  )
    where
      by_fields :
          (r : Result ParseError (ℕ × ℕ))
          → parse_attestation z payload ≡ r
          → forward_to_mump2p known accelerated types z s m now slot_now attestation payload ≡ true
          → IsForwardable z s m now slot_now payload
      by_fields (err x) e h = absurd (ground arith)
      by_fields (ok (attester, slot)) e h = elim (Bool-cases (ltb 0 (diff_uint64 slot slot_now))) [
        | inl old ↦ absurd (ground arith)
        | inr new ↦
            let current = (same_slot slot slot_now).0 new in
            (
              ground arith,
              ground arith,
              attester,
              e ∙ ap (λ t. ok (attester, t)) current,
              ground arith,
            )
      ]

  -- A message that is no beacon block is sent to MumP2P exactly when it is such an attestation,
  -- of an unknown topic as well as of an attestation topic: the payload decides, and the topic's
  -- kind does not, other than the comment on `Service` says.
  pub forward_to_mump2p_iff :
      (z : Snappy) (s : Router known accelerated) (m : Manager) (now slot_now : ℕ)
      (kind : TopicKind) (payload : Bytes)
      → kind ≢ beacon_block
      → (forward_to_mump2p known accelerated types z s m now slot_now kind payload ≡ true)
        ↔ IsForwardable z s m now slot_now payload
  unfolding forward_to_mump2p
  forward_to_mump2p_iff z s m now slot_now beacon_block payload n = absurd (n refl)
  forward_to_mump2p_iff z s m now slot_now attestation payload n = checks z s m now slot_now payload
  forward_to_mump2p_iff z s m now slot_now unknown payload n = checks z s m now slot_now payload

  forward_to_clp2p_block_iff :
      (s : Router known accelerated) (m : Manager) (now slot : ℕ)
      → (forward_to_clp2p known accelerated types s m now beacon_block slot ≡ true) ↔ (
          (is_enabled m ≡ true)
          × (has_valid_token m now ≡ true)
          × ((text_eq (own_type m) types.partner ≡ true)
              ⊎ ((text_eq (own_type m) types.hermes ≡ true)
                  × (should_accelerate_block known accelerated s now slot ≡ true))))
  unfolding forward_to_clp2p
  forward_to_clp2p_block_iff s m now slot = (
    λ h. (
      ground arith,
      ground arith,
      elim (Bool-cases (text_eq (own_type m) types.partner)) [
        | inl p ↦ inl p
        | inr p ↦ inr (ground arith, ground arith)
      ],
    ),
    λ (on, live, o). elim o [ inl p ↦ ground arith | inr (p, a) ↦ ground arith ],
  )

  -- After a poll with a published list, and while its entries live, a beacon block is sent to the
  -- consensus client exactly when auth is on, a token is live, and the gateway is a partner's, or a
  -- hermes one and the slot is past the new horizon, on the new list, or on the set before.
  pub forward_to_clp2p-apply_poll :
      (s : Router known accelerated) (m : Manager) (at now slot horizon : ℕ) (slots : List ℤ)
      (made : ℤ)
      → at ≤ now
      → now < at + accelerated.ttl
      → 1 ≤ horizon
      → (forward_to_clp2p known accelerated types
            (apply_poll known accelerated s at (
              answered 200
                (some (record { to_slot = pos horizon; slots = slots; generated_at_ms = made }))))
            m
            now
            beacon_block
            slot
          ≡ true)
        ↔ ((is_enabled m ≡ true)
            × (has_valid_token m now ≡ true)
            × ((text_eq (own_type m) types.partner ≡ true)
                ⊎ ((text_eq (own_type m) types.hermes ≡ true)
                    × ((ltb horizon slot
                          || listed slot slots
                          || accelerated.get s.accelerate_slots now slot)
                        ≡ true))))
  forward_to_clp2p-apply_poll s m at now slot horizon slots made l u p =
      rw (sym (apply_poll-accelerates known accelerated s at now slot horizon slots made l u p))
        (forward_to_clp2p_block_iff _ m now slot)
