-- ===== src/AuthToken/Mint.antt =====
-- What a mint of pkg/service/auth_token/manager.go leaves behind, and what the getters then give.
use optimum_gateway.Base.{
  ◌≡◌, refl, subst, arith, true, false, not, Option, none, some, if◌then◌else◌, Result, ok, err,
  ◌>>=◌, or_fail, bind_ok, Bool-cases, inl, inr, ◌⊎◌,
}
use optimum_gateway.Base.Wire.{Bytes}
use optimum_gateway.Forks.{is_empty, or_empty, is_some}
use optimum_gateway.AuthToken.{
  Claims, Manager, MintResponse, MintError, PostReply, verify_failed, answered, transport_error,
  network_error, build_mint_payload, check_status, check_access, cache_services, cache_minted,
  accept_mint, mint, aud_p2p, aud_services,
}

-- The token that services are shown: the services token, or the handshake token without one.
abbrev pub service_token_of : Manager → Bytes
service_token_of m =
    if not (is_empty (or_empty m.services_token))
    then or_empty m.services_token
    else or_empty m.token

-- A token that is there was verified for its audience, and its claims are the ones kept; and the
-- metrics are pushed with the token that services are shown.
pub record IsValid (verify : Bytes → Bytes → Option Claims) (m : Manager) : Type 0 where
  pub verified :
      is_empty (or_empty m.token) ≡ false
      → (is_some m.claims ≡ true) × (verify (or_empty m.token) aud_p2p ≡ m.claims)
  pub services_verified :
      is_empty (or_empty m.services_token) ≡ false
      → (is_some m.services_claims ≡ true)
        × (verify (or_empty m.services_token) aud_services ≡ m.services_claims)
  pub pushed : m.push_token ≡ service_token_of m

module _ (verify : Bytes → Bytes → Option Claims) where
  check_access-nonempty :
      (body : Option MintResponse) {r : MintResponse}
      → check_access body ≡ ok r
      → is_empty r.access_token ≡ false
  unfolding check_access
  check_access-nonempty none h = absurd (cc)
  check_access-nonempty (some b) h = elim (Bool-cases (is_empty b.access_token)) [
    | inl e ↦ absurd (ground arith)
    | inr e ↦ ground arith
  ]

  verify_step :
      (r : MintResponse) (c : Option Claims) {r' : MintResponse} {c' : Claims}
      → ◌>>=◌ {B = MintResponse × Claims} (or_fail c verify_failed) (λ d. ok (r, d)) ≡ ok (r', c')
      → (c ≡ some c') × (r ≡ r')
  verify_step r none h = absurd (cc)
  verify_step r (some d) h = (cc, cc)

  accept_mint_sound :
      (m : Manager) (signed : Option Bytes) (reply : PostReply) {r : MintResponse} {c : Claims}
      → accept_mint verify m signed reply ≡ ok (r, c)
      → (is_empty r.access_token ≡ false) × (verify r.access_token aud_p2p ≡ some c)
  unfolding accept_mint
  accept_mint_sound m signed reply {r} {c} h =
      let (payload, e0, h0) = bind_ok (build_mint_payload m signed) _ h in
      let (body, e1, h1) =
        bind_ok
          (elim reply [
            | transport_error ↦ err network_error
            | answered code parsed ↦ check_status code parsed
          ])
          _ h0 in
      let (b, e2, h2) = bind_ok (check_access body) _ h1 in
      let (v, same) = verify_step b (verify b.access_token aud_p2p) h2 in
      (
        subst (λ x. is_empty x.access_token ≡ false) same (check_access-nonempty body e2),
        subst (λ x. verify x.access_token aud_p2p ≡ some c) same v,
      )

  cache-IsValid :
      (m : Manager) (r : MintResponse) (c : Claims)
      → is_empty r.access_token ≡ false
      → verify r.access_token aud_p2p ≡ some c
      → IsValid verify (cache_minted verify m r c)
  unfolding cache_minted cache_services
  cache-IsValid m r c ne v = elim (Bool-cases (is_empty r.services_token)) [
    | inl e ↦ record {
      verified = ground (arith);
      services_verified = ground (arith);
      pushed = ground (arith);
    }
    | inr e ↦ by_services (verify r.services_token aud_services) refl
  ]
    where
      by_services :
          (o : Option Claims)
          → verify r.services_token aud_services ≡ o
          → IsValid verify (cache_minted verify m r c)
      by_services none e = record {
        verified = ground (arith);
        services_verified = ground (arith);
        pushed = ground (arith);
      }
      by_services (some d) e = record {
        verified = ground (arith);
        services_verified = ground (arith);
        pushed = ground (arith);
      }

  cache-token :
      (m : Manager) (r : MintResponse) (c : Claims)
      → (cache_minted verify m r c).token ≡ some r.access_token
  unfolding cache_minted cache_services
  cache-token m r c = ground arith

  -- Whatever the auth service answers, a mint keeps the tokens verified and the pushed one in step.
  pub mint-IsValid :
      (m : Manager) (signed : Option Bytes) (reply : PostReply)
      → IsValid verify m
      → IsValid verify (mint verify m signed reply).0
  unfolding mint
  mint-IsValid m signed reply v = by_answer (accept_mint verify m signed reply) refl
    where
      by_answer :
          (o : Result MintError (MintResponse × Claims))
          → accept_mint verify m signed reply ≡ o
          → IsValid verify (mint verify m signed reply).0
      by_answer (ok (r, c)) e =
          let (ne, vc) = accept_mint_sound m signed reply e in
          rw (mint, e) (cache-IsValid m r c ne vc)
      by_answer (err x) e = rw (mint, e) v

  -- A mint that gives a token stored it, not empty; one that fails changed nothing.
  pub mint_result :
      (m : Manager) (signed : Option Bytes) (reply : PostReply)
      → ((t : Bytes) × ((mint verify m signed reply).1 ≡ ok t)
          × (is_empty t ≡ false)
          × ((mint verify m signed reply).0.token ≡ some t))
        ⊎ ((e : MintError) × ((mint verify m signed reply).1 ≡ err e)
            × ((mint verify m signed reply).0 ≡ m))
  unfolding mint
  mint_result m signed reply = by_answer (accept_mint verify m signed reply) refl
    where
      by_answer :
          (o : Result MintError (MintResponse × Claims))
          → accept_mint verify m signed reply ≡ o
          → ((t : Bytes) × ((mint verify m signed reply).1 ≡ ok t)
              × (is_empty t ≡ false)
              × ((mint verify m signed reply).0.token ≡ some t))
            ⊎ ((e : MintError) × ((mint verify m signed reply).1 ≡ err e)
                × ((mint verify m signed reply).0 ≡ m))
      by_answer (ok (r, c)) e = inl (
        r.access_token,
        rw (mint, e) refl,
        (accept_mint_sound m signed reply e).0,
        rw (mint, e) (cache-token m r c),
      )
      by_answer (err x) e = inr (x, rw (mint, e) refl, rw (mint, e) refl)
