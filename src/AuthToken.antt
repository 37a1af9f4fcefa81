-- ===== src/AuthToken.antt =====
-- pkg/service/auth_token/manager.go: the gateway's own tokens. The verifier of
-- pkg/service/jwks_verifier and the chain table of optimum-common are parameters (`Verifier`,
-- `chain_of`); a signed assertion and the answer of the auth service are arguments. An
-- atomic.Pointer is an option.
pub mod Mint
pub mod Serving
pub mod Refresh
mod Tests
use optimum_gateway.Base.{
  ℕ, zero, suc, ◌+◌, ◌*◌, ◌≡◌, refl, arith, List, [], ◌∷◌, Bool, true, false, ◌&&◌, ◌||◌, not,
  Option, none, some, ◌==◌, ltb, if◌then◌else◌, min, Result, ok, err, ◌>>=◌, guard, ◌>>◌, or_fail,
}
use optimum_gateway.Base.Wire.{Bytes}
use optimum_gateway.Forks.{is_empty, or_empty, is_some}
use optimum_gateway.Utils.Text.{codes, text_eq}

pub record Claims : Type 0 where
  pub subject : Bytes
  pub gateway_type : Bytes  -- `Type`
  pub chain_id : Bytes
  pub issued_at : Option ℕ  -- nanoseconds
  pub expires_at : Option ℕ  -- nanoseconds
  pub cnf_peer_id : Option Bytes  -- `CNF`
  pub cluster_ids : List Bytes
  pub can_publish : Bool  -- what `CanPublish` of optimum-common says

abbrev pub aud_p2p : Bytes
aud_p2p = codes "p2p"

abbrev pub aud_services : Bytes
aud_services = codes "services"

abbrev pub aud_stream : Bytes
aud_stream = codes "stream"

-- `enrollment.Credential`, of which this package reads the client id.
pub record Credential : Type 0 where
  pub client_id : Bytes

-- The state of `Service`. `push_token` is the token that `telemetry.SetPushToken` keeps.
pub record Manager : Type 0 where
  pub api_key : Bytes
  pub peer_id : Bytes
  pub cred : Option Credential
  pub token : Option Bytes
  pub services_token : Option Bytes
  pub claims : Option Claims
  pub services_claims : Option Claims
  pub operator_id : Option Bytes
  pub indexes : List ℕ
  pub push_token : Bytes

pub record MintResponse : Type 0 where
  pub access_token : Bytes
  pub services_token : Bytes
  pub operator_id : Bytes
  pub validator_indexes : List ℕ
  pub error : Bytes

-- `nil_dereference` is no error value: the program panics there.
pub data MintError : Type 0 where
  assertion_failed network_error unknown_key key_revoked key_suspended : MintError
  forbidden bad_status empty_token verify_failed nil_dereference : MintError

-- What `RetryPostRequest` gives.
pub data PostReply : Type 0 where
  transport_error : PostReply
  answered : ℕ → Option MintResponse → PostReply

pub data Payload : Type 0 where
  api_key_grant : Bytes → Bytes → Payload
  assertion_grant : Bytes → Bytes → Payload

-- `buildMintPayload`; the argument is what `SignAssertion` gives.
unfoldable pub build_mint_payload : Manager → Option Bytes → Result MintError Payload
build_mint_payload m signed = elim m.cred [
  | none ↦ ok (api_key_grant m.api_key m.peer_id)
  | some c ↦ elim signed [
    | none ↦ err assertion_failed
    | some assertion ↦ ok (assertion_grant assertion m.peer_id)
  ]
]

-- `NewDisabled`
unfoldable pub new_disabled : Manager
new_disabled = record {
  api_key = [];
  peer_id = [];
  cred = none;
  token = none;
  services_token = none;
  claims = none;
  services_claims = none;
  operator_id = none;
  indexes = [];
  push_token = [];
}

unfoldable pub is_enabled : Manager → Bool
is_enabled m = not (is_empty m.api_key) || is_some m.cred

-- `ClientID`
unfoldable pub client_id : Manager → Bytes
client_id m = elim m.cred [ none ↦ [] | some c ↦ c.client_id ]

-- `OperatorID`
unfoldable pub operator_id : Manager → Bytes
operator_id m = or_empty m.operator_id

-- `HasValidToken` at a time.
unfoldable pub has_valid_token : Manager → ℕ → Bool
has_valid_token m now = elim m.claims [
  | none ↦ false
  | some c ↦ elim c.expires_at [ none ↦ false | some exp ↦ ltb now exp ]
]

-- What is done with a 403: the error names of the auth service, where there is a body.
unfoldable pub forbidden_error : Option MintResponse → MintError
forbidden_error none = nil_dereference
forbidden_error (some r) =
    if text_eq r.error (codes "key_revoked")
    then key_revoked
    else (if text_eq r.error (codes "key_suspended") then key_suspended else forbidden)

unfoldable pub status_error : Option MintResponse → MintError
status_error none = nil_dereference
status_error (some r) = bad_status

-- The `switch` on the status code: the body to go on with, or the error.
unfoldable pub check_status : ℕ → Option MintResponse → Result MintError (Option MintResponse)
unfolding forbidden_error status_error
check_status code parsed =
    if code == 200
    then ok parsed
    else (if code == 401
        then err unknown_key
        else (if code == 403 then err (forbidden_error parsed) else err (status_error parsed)))

-- `parsed == nil || parsed.AccessToken == ""`
unfoldable pub check_access : Option MintResponse → Result MintError MintResponse
check_access none = err empty_token
check_access (some r) = if is_empty r.access_token then err empty_token else ok r

-- `jwks_verifier.Verify` of a token for an audience.
module _ (verify : Bytes → Bytes → Option Claims) where
  -- The part of `mint` that caches the services token, after the access token was cached.
  unfoldable pub cache_services : Manager → MintResponse → Manager
  cache_services m r =
      let without = record m {
        services_token = some [];
        services_claims = none;
        push_token = r.access_token;
      } in
      if is_empty r.services_token then without else elim (verify r.services_token aud_services) [
        | none ↦ without
        | some c ↦ record m {
          services_token = some r.services_token;
          services_claims = some c;
          push_token = r.services_token;
        }
      ]

  -- The end of `mint`: everything from the verified access token on.
  unfoldable pub cache_minted : Manager → MintResponse → Claims → Manager
  unfolding cache_services
  cache_minted m r c =
      cache_services
        (record m {
          token = some r.access_token;
          claims = some c;
          operator_id = some r.operator_id;
          indexes = r.validator_indexes;
        })
        r

  -- The checks of `mint` before anything is stored: the response and the claims of its token.
  unfoldable pub accept_mint :
      Manager → Option Bytes → PostReply → Result MintError (MintResponse × Claims)
  unfolding build_mint_payload check_status check_access
  accept_mint m signed reply = do
    payload ← build_mint_payload m signed
    body ← elim reply [
      | transport_error ↦ err network_error
      | answered code parsed ↦ check_status code parsed
    ]
    r ← check_access body
    c ← or_fail (verify r.access_token aud_p2p) verify_failed
    ok (r, c)

  -- `mint`: the manager afterwards, and the token or the error.
  unfoldable pub mint : Manager → Option Bytes → PostReply → Manager × Result MintError Bytes
  mint m signed reply = elim (accept_mint m signed reply) [
    | ok (r, c) ↦ (cache_minted m r c, ok r.access_token)
    | err e ↦ (m, err e)
  ]

  -- `Token`, which is `HandshakeToken`: the cached token, or a mint.
  unfoldable pub token : Manager → Option Bytes → PostReply → Manager × Result MintError Bytes
  token m signed reply =
      if not (is_enabled m)
      then (m, ok [])
      else (if not (is_empty (or_empty m.token))
          then (m, ok (or_empty m.token))
          else mint m signed reply)

  -- `ServicesToken`
  unfoldable pub services_token :
      Manager → Option Bytes → PostReply → Manager × Result MintError Bytes
  services_token m signed reply =
      if not (is_enabled m)
      then (m, ok [])
      else (if not (is_empty (or_empty m.services_token))
          then (m, ok (or_empty m.services_token))
          else (if not (is_empty (or_empty m.token))
              then (m, ok (or_empty m.token))
              else (let (m', r) = mint m signed reply in
                  elim r [
                    | ok _ ↦ (
                      m',
                      ok (
                          if not (is_empty (or_empty m'.services_token))
                          then or_empty m'.services_token
                          else or_empty m'.token),
                    )
                    | err e ↦ (m', err e)
                  ])))

  module _ (chain_of : Bytes → Option Bytes) where
    -- `Chain`, the empty text before the first mint or for a chain that is not known.
    unfoldable pub own_chain : Manager → Bytes
    own_chain m = elim m.claims [ none ↦ [] | some c ↦ or_empty (chain_of c.chain_id) ]

    pub data VerifyError : Type 0 where
      invalid_token unknown_chain chain_mismatch : VerifyError

    -- `VerifyToken`; no claims and no error where auth is off.
    unfoldable pub verify_token : Manager → Bytes → Result VerifyError (Option Claims)
    verify_token m raw = if not (is_enabled m) then ok none else (do
      c ← or_fail (verify raw aud_p2p) invalid_token
      ch ← or_fail (chain_of c.chain_id) unknown_chain
      guard (text_eq ch (own_chain m)) chain_mismatch
      ok (some c))

    -- `VerifyStreamToken`
    unfoldable pub verify_stream_token : Manager → Bytes → Result VerifyError (Option Claims)
    verify_stream_token m raw =
        if not (is_enabled m)
        then ok none
        else (do c ← or_fail (verify raw aud_stream) invalid_token; ok (some c))
