-- ===== src/AuthToken/Tests.antt =====
-- The theorems on the gateway's tokens at a concrete verifier: it accepts the text of an audience
-- as a token for it.
use optimum_gateway.Base.{
  ◌≡◌, ◌↔◌, inl, refl, List, [], ◌∷◌, false, ◌==◌, Option, none, some, if◌then◌else◌, ok, err, Each,
  arith, min, ◌*◌, ◌^◌,
}
use optimum_gateway.Base.Wire.{Bytes}
use optimum_gateway.Forks.{is_empty, is_some}
use optimum_gateway.Utils.Text.{codes, text_eq}
use optimum_gateway.AuthToken.{
  Claims, Manager, MintResponse, accept_mint, cache_minted, answered, transport_error, new_disabled,
  mint, services_token, nil_dereference, build_mint_payload, is_enabled, verify_token,
  api_key_grant, own_chain,
}
use optimum_gateway.AuthToken.Mint.{IsValid}
use optimum_gateway.AuthToken.Serving.{services_token-pushed, mint_panics}
use optimum_gateway.AuthToken.Refresh.{
  Round, IsWait, refresh_loop, refresh_loop-bounds, backoff_after, next_retry_backoff-iterate,
}

abbrev claims : Claims
claims = record {
  subject = codes "gw";
  gateway_type = codes "partner";
  chain_id = codes "hoodi";
  issued_at = none;
  expires_at = none;
  cnf_peer_id = none;
  cluster_ids = [];
  can_publish = false;
}

abbrev verifier : Bytes → Bytes → Option Claims
verifier raw aud = if text_eq raw aud then some claims else none

abbrev start : Manager
start = record new_disabled { api_key = codes "key" }

abbrev response : MintResponse
response = record {
  access_token = codes "p2p";
  services_token = codes "services";
  operator_id = [];
  validator_indexes = 5 ∷ [];
  error = [];
}

start-IsValid : IsValid verifier start
unfolding new_disabled
start-IsValid = record {
  verified = λ h. absurd (cc);
  services_verified = λ h. absurd (cc);
  pushed = refl;
}

abbrev minted : Manager
minted = (mint verifier start none (answered 200 (some response))).0

services_token-pushed_example :
    (is_empty (codes "services") ≡ false)
    × (codes "services"
        ≡ (services_token verifier start none (answered 200 (some response))).0.push_token)
    × IsValid verifier (services_token verifier start none (answered 200 (some response))).0
unfolding services_token is_enabled new_disabled mint accept_mint text_eq cache_minted
services_token-pushed_example =
    services_token-pushed verifier start none (answered 200 (some response)) (codes "services")
      start-IsValid refl refl

mint_panics_example :
    ((mint verifier start none (answered 500 none)).1 ≡ err nil_dereference)
    ↔ ((is_some {A = MintResponse} none ≡ false) × ((500 == 200) ≡ false) × ((500 == 401) ≡ false))
unfolding build_mint_payload new_disabled
mint_panics_example = mint_panics verifier start none 500 none (api_key_grant (codes "key") []) refl

abbrev chains : Bytes → Option Bytes
chains id = if text_eq id (codes "hoodi") then some (codes "hoodi") else none

abbrev peer : Manager
peer = record start { api_key = codes "other"; claims = some claims }

peer-accepts : verify_token verifier chains peer (codes "p2p") ≡ ok (some claims)
unfolding verify_token is_enabled new_disabled own_chain text_eq
peer-accepts = refl

abbrev rounds : List Round
rounds =
    record {
      draw = some 700;
      done_waiting = false;
      signed = none;
      reply = transport_error;
      done_minting = false;
    }
    ∷ record {
      draw = none;
      done_waiting = false;
      signed = none;
      reply = answered 200 (some response);
      done_minting = false;
    }
    ∷ []

refresh_loop-bounds_example :
    Each IsWait (refresh_loop verifier start 0 rounds).1
    × IsValid verifier (refresh_loop verifier start 0 rounds).0
refresh_loop-bounds_example =
    refresh_loop-bounds verifier start 0 rounds start-IsValid (inl refl)
      ((omega arith, omega arith), (tt, tt))

next_retry_backoff-iterate_example : backoff_after 3 ≡ min (60 * 2 ^ 2) 1800
next_retry_backoff-iterate_example = next_retry_backoff-iterate 2
