-- ===== src/AuthToken/Serving.antt =====
-- What the getters and the verifiers of pkg/service/auth_token/manager.go give in a state that the
-- mints keep.
use optimum_gateway.Base.{
  ℕ, ◌≡◌, refl, sym, ap, Bool, arith, true, false, Option, none, some, ◌==◌, ok, err, Bool-cases,
  inl, inr, ◌↔◌,
}
use optimum_gateway.Base.Wire.{Bytes}
use optimum_gateway.Forks.{is_empty, or_empty, is_some}
use optimum_gateway.Utils.Text.{text_eq}
use optimum_gateway.AuthToken.{
  Claims, Manager, Payload, build_mint_payload, check_access, accept_mint, MintResponse, PostReply,
  answered, check_status, forbidden_error, status_error, mint, services_token, token, is_enabled,
  aud_p2p, nil_dereference, verify_token, own_chain,
}
use optimum_gateway.AuthToken.Mint.{IsValid, mint-IsValid, mint_result}

-- The verifier gives the claims for the token as a p2p token, and their chain is known and is the
-- gateway's own chain.
abbrev pub Accepted :
    (Bytes → Bytes → Option Claims)
    → (Bytes → Option Bytes)
    → Manager
    → Bytes
    → Option Claims
    → Type 0
Accepted verify chain_of m raw o =
    (c : Claims) × (o ≡ some c)
    × (verify raw aud_p2p ≡ some c)
    × (ch : Bytes) × (chain_of c.chain_id ≡ some ch)
    × (text_eq ch (own_chain verify chain_of m) ≡ true)

module _ (verify : Bytes → Bytes → Option Claims) where
  -- With auth on, the token that services are shown is the one the metrics are pushed with, it is
  -- not empty, and the state stays valid.
  pub services_token-pushed :
      (m : Manager) (signed : Option Bytes) (reply : PostReply) (t : Bytes)
      → IsValid verify m
      → is_enabled m ≡ true
      → (services_token verify m signed reply).1 ≡ ok t
      → (is_empty t ≡ false)
        × (t ≡ (services_token verify m signed reply).0.push_token)
        × IsValid verify (services_token verify m signed reply).0
  unfolding services_token
  services_token-pushed m signed reply t v on h =
      elim (Bool-cases (is_empty (or_empty m.services_token))) [
        | inr s ↦ (ground (arith, v.pushed), ground (arith, v.pushed), rw (on, s) v)
        | inl s ↦ elim (Bool-cases (is_empty (or_empty m.token))) [
          | inr p ↦ (ground (arith, v.pushed), ground (arith, v.pushed), rw (on, s, p) v)
          | inl p ↦ elim (mint_result verify m signed reply) [
            | inl (t', e, ne, stored) ↦
                (let w = mint-IsValid verify m signed reply v in
                  (ground (arith, w.pushed), ground (arith, w.pushed), rw (on, s, p, e) w))
            | inr (x, e, same) ↦ absurd (cc (rw (on, s, p, e) at h))
          ]
        ]
      ]

  -- Once a mint's payload is built, the answer makes it panic exactly where it has no body and its
  -- status is neither 200 nor 401: the error field of a missing body is read.
  pub mint_panics :
      (m : Manager) (signed : Option Bytes) (code : ℕ) (parsed : Option MintResponse) (p : Payload)
      → build_mint_payload m signed ≡ ok p
      → ((mint verify m signed (answered code parsed)).1 ≡ err nil_dereference)
        ↔ ((is_some parsed ≡ false) × ((code == 200) ≡ false) × ((code == 401) ≡ false))
  unfolding mint accept_mint check_status forbidden_error status_error check_access
  mint_panics m signed code none p b = (λ h. ground arith, λ h. ground arith)
  mint_panics m signed code (some r) p b = (
    λ h. elim (Bool-cases (is_empty r.access_token)) [
      | inl e ↦ absurd (ground arith)
      | inr e ↦ by_claims e (verify r.access_token aud_p2p) refl h
    ],
    λ h. absurd (cc),
  )
    where
      by_claims :
          is_empty r.access_token ≡ false
          → (o : Option Claims) → verify r.access_token aud_p2p ≡ o
          → (mint verify m signed (answered code (some r))).1 ≡ err nil_dereference
          → (is_some (some r) ≡ false) × ((code == 200) ≡ false) × ((code == 401) ≡ false)
      by_claims ne none e h = absurd (ground arith)
      by_claims ne (some c) e h = absurd (ground arith)

  module _ (chain_of : Bytes → Option Bytes) where
    pub verify_token_iff :
        (m : Manager) (raw : Bytes) (o : Option Claims)
        → is_enabled m ≡ true
        → (verify_token verify chain_of m raw ≡ ok o) ↔ Accepted verify chain_of m raw o
    unfolding verify_token
    verify_token_iff m raw o on = (
      by_claims (verify raw aud_p2p) refl,
      λ (c, e, v, ch, k, same). rw (on, v, k, same) (ap ok (sym e)),
    )
      where
        by_chain :
            (c : Claims)
            → verify raw aud_p2p ≡ some c
            → (k : Option Bytes) → chain_of c.chain_id ≡ k
            → verify_token verify chain_of m raw ≡ ok o
            → Accepted verify chain_of m raw o
        by_chain c v none e h = absurd (cc (rw (on, v, e) at h))
        by_chain c v (some ch) e h = elim (Bool-cases (text_eq ch (own_chain verify chain_of m))) [
          | inl same ↦ (c, sym (cc (rw (on, v, e, same) at h)), v, ch, e, same)
          | inr differs ↦ absurd (cc (rw (on, v, e, differs) at h))
        ]

        by_claims :
            (k : Option Claims)
            → verify raw aud_p2p ≡ k
            → verify_token verify chain_of m raw ≡ ok o
            → Accepted verify chain_of m raw o
        by_claims none e h = absurd (cc (rw (on, e) at h))
        by_claims (some c) e h = by_chain c e (chain_of c.chain_id) refl h

    -- The chain of a gateway's own claims is one that is known.
    abbrev pub knows_chain : Manager → Bool
    knows_chain m = elim m.claims [ none ↦ false | some c ↦ is_some (chain_of c.chain_id) ]
