-- ===== src/Jwks/Tests.antt =====
-- The theorem on verified tokens at a parser that accepts every token of one subject.
use optimum_gateway.Base.{ℕ, ◌+◌, ◌≤◌, ◌≡◌, refl, Option, none, some, false, []}
use optimum_gateway.Base.Wire.{Bytes}
use optimum_gateway.Forks.{is_empty}
use optimum_gateway.Utils.Text.{codes, trim_space, trim_left, is_space}
use optimum_gateway.AuthToken.{Claims}
use optimum_gateway.Jwks.{verify_jwt, verify_jwt_sound, check_lifetime, clock_skew}

abbrev claims : Claims
claims = record {
  subject = codes "gw";
  gateway_type = [];
  chain_id = [];
  issued_at = some 1000;
  expires_at = some 2000;
  cnf_peer_id = none;
  cluster_ids = [];
  can_publish = false;
}

abbrev parse : Bytes → Bytes → Bytes → ℕ → Option Claims
parse raw issuer audience leeway = some claims

verify_jwt_sound_example :
    (parse (codes "t") (codes "i") (codes "p2p") clock_skew ≡ some claims)
    × (is_empty (trim_space claims.subject) ≡ false)
    × (iat : ℕ) × (exp : ℕ) × (claims.issued_at ≡ some iat)
    × (claims.expires_at ≡ some exp)
    × (exp ≤ iat + 21660000000000)
unfolding verify_jwt trim_space trim_left is_space check_lifetime
verify_jwt_sound_example = verify_jwt_sound parse (codes "i") (codes "t") (codes "p2p") claims refl
