-- ===== src/Jwks.antt =====
-- pkg/service/jwks_verifier/verifier.go: `Verify`. Times are in nanoseconds. Parsing a token with
-- its signature, method, issuer, audience and times checked is github.com/golang-jwt/jwt's: a
-- parameter, which gives the claims or nothing.
mod Tests
use optimum_gateway.Base.{
  ℕ, ◌+◌, ◌-◌, ◌≤◌, ◌≡◌, ◌↔◌, refl, ap, subst, ◌∙◌, sym, arith, Bool, true, false, not, Option,
  none, some, Result, ok, err, guard, ◌>>=◌, ◌>>◌, or_fail, bind_ok, guard-true, or_fail-some, leb,
  ltb, [], Bool-cases, inl, inr, if◌then◌else◌,
}
use optimum_gateway.Base.Wire.{Bytes}
use optimum_gateway.Forks.{is_empty, is_some}
use optimum_gateway.Utils.Text.{trim_space}
use optimum_gateway.AuthToken.{Claims}

-- Six hours, one minute, and half a minute.
abbrev pub max_token_lifetime : ℕ
max_token_lifetime = 21600000000000

abbrev pub max_token_lifetime_skew : ℕ
max_token_lifetime_skew = 60000000000

abbrev pub clock_skew : ℕ
clock_skew = 30000000000

-- `nil_expiry` is no error value: the program panics there.
pub data VerifyError : Type 0 where
  invalid_token missing_audience parse_failed empty_subject missing_issued_at : VerifyError
  lifetime_exceeded nil_expiry : VerifyError

-- The test of the lifetime.
unfoldable pub check_lifetime : Claims → Result VerifyError Claims
check_lifetime c = elim c.issued_at [
  | none ↦ err missing_issued_at
  | some iat ↦ elim c.expires_at [
    | none ↦ err nil_expiry
    | some exp ↦
        if ltb (max_token_lifetime + max_token_lifetime_skew) (exp - iat)
        then err lifetime_exceeded
        else ok c
  ]
]

-- The parser takes the token, the issuer, the audience and the leeway.
module _ (parse : Bytes → Bytes → Bytes → ℕ → Option Claims) where
  -- `Verify`, of a verifier with its expected issuer.
  unfoldable pub verify_jwt : Bytes → Bytes → Bytes → Result VerifyError Claims
  unfolding check_lifetime
  verify_jwt issuer raw audience = do
    guard (not (is_empty raw)) invalid_token
    guard (not (is_empty (trim_space audience))) missing_audience
    c ← or_fail (parse raw issuer audience clock_skew) parse_failed
    guard (not (is_empty (trim_space c.subject))) empty_subject
    check_lifetime c

  check_lifetime_sound :
      (c c' : Claims)
      → check_lifetime c ≡ ok c'
      → (c ≡ c')
        × (iat : ℕ) × (exp : ℕ) × (c.issued_at ≡ some iat)
        × (c.expires_at ≡ some exp)
        × (exp ≤ iat + 21660000000000)
  unfolding check_lifetime
  check_lifetime_sound c c' h = by_times c.issued_at refl c.expires_at refl
    where
      by_times :
          (i : Option ℕ)
          → c.issued_at ≡ i
          → (x : Option ℕ) → c.expires_at ≡ x
          → (c ≡ c')
            × (iat : ℕ) × (exp : ℕ) × (c.issued_at ≡ some iat)
            × (c.expires_at ≡ some exp)
            × (exp ≤ iat + 21660000000000)
      by_times none p x q = absurd (cc (rw (check_lifetime, p) at h))
      by_times (some iat) p none q = absurd (cc (rw (check_lifetime, p, q) at h))
      by_times (some iat) p (some exp) q =
          elim (Bool-cases (ltb (max_token_lifetime + max_token_lifetime_skew) (exp - iat))) [
            | inl y ↦ absurd (ground (arith, p, q))
            | inr n ↦ (ground (arith, p, q), iat, exp, p, q, ground (arith, n))
          ]

  -- A token is accepted, with the claims that were parsed, only if the library accepted it for the
  -- issuer and the audience, its subject is not blank, and it says when it was issued and that it
  -- expires no later than six hours and a minute after that.
  pub verify_jwt_sound :
      (issuer raw audience : Bytes) (c : Claims)
      → verify_jwt issuer raw audience ≡ ok c
      → (parse raw issuer audience clock_skew ≡ some c)
        × (is_empty (trim_space c.subject) ≡ false)
        × (iat : ℕ) × (exp : ℕ) × (c.issued_at ≡ some iat)
        × (c.expires_at ≡ some exp)
        × (exp ≤ iat + 21660000000000)
  unfolding verify_jwt
  verify_jwt_sound issuer raw audience c h =
      let (_, _, h0) = bind_ok (guard (not (is_empty raw)) invalid_token) _ h in
      let (_, _, h1) =
        bind_ok (guard (not (is_empty (trim_space audience))) missing_audience) _ h0 in
      let (d, e, h2) = bind_ok (or_fail (parse raw issuer audience clock_skew) parse_failed) _ h1 in
      let (_, g, h3) = bind_ok (guard (not (is_empty (trim_space d.subject))) empty_subject) _ h2 in
      let (same, iat, exp, p, q, l) = check_lifetime_sound d c h3 in
      let named : not (is_empty (trim_space d.subject)) ≡ true = guard-true empty_subject g in
      (
        or_fail-some _ parse_failed e ∙ ap some same,
        subst (λ x. is_empty (trim_space x.subject) ≡ false) same (ground arith),
        iat,
        exp,
        subst (λ x. x.issued_at ≡ some iat) same p,
        subst (λ x. x.expires_at ≡ some exp) same q,
        l,
      )
