-- ===== src/Enrollment.antt =====
-- pkg/service/enrollment/enrollment.go: the credential on disk, the pending keypair, and enrolling
-- with the auth service. The cryptography, the JSON of a credential and the answers of the file
-- system and of the auth service are parameters; the log lines and the file modes are left out.
pub mod Actions
pub mod Enroll
pub mod Laws
pub mod Finish
pub mod Resume
mod Tests
use optimum_gateway.Base.{
  ℕ, ◌+◌, ◌≡◌, refl, Bool, true, false, not, ◌||◌, ◌&&◌, Option, none, some, List, [], ◌∷◌, ◌++◌,
  if◌then◌else◌, ◌==◌, length, Result, ok, err, ◌>>=◌, ◌>>◌, guard, or_fail, take, drop,
}
use optimum_gateway.Base.Wire.{Bytes}
use optimum_gateway.Forks.{is_empty}
use optimum_gateway.Utils.Text.{codes, text_eq}
use optimum_gateway.Enrollment.Actions.{File, missing, unreadable, holds}

-- `PublicJWK`
pub record PublicJwk : Type 0 where
  pub crv : Bytes
  pub kty : Bytes
  pub x : Bytes
  pub y : Bytes

-- What `signAssertion` signs.
pub record AssertionClaims : Type 0 where
  pub iss : Bytes
  pub sub : Bytes
  pub aud : Bytes
  pub iat : ℕ
  pub exp : ℕ
  pub jti : Bytes
  pub peer_id : Option Bytes

pub data EnrollError : Type 0 where
  join_key_required issuer_required not_writable : EnrollError
  generate_failed marshal_failed write_failed encode_failed sign_failed : EnrollError
  not_exist read_failed parse_failed no_client_id no_private_key bad_private_key : EnrollError
  not_ecdsa not_p256 thumbprint_mismatch peer_mismatch : EnrollError
  post_failed invalid_enrollment missing_client_id : EnrollError
  conflict : Bytes → EnrollError
  unexpected_status : ℕ → Bytes → EnrollError

-- What `x509.ParsePKCS8PrivateKey` gives, where it gives a key.
pub data Parsed (K : Type 0) : Type 0 where
  ec : K → Parsed K
  other_key : Parsed K

-- `Credential`, with the parsed key that it may hold.
pub record Credential (K : Type 0) : Type 0 where
  pub client_id : Bytes
  pub type_name : Bytes  -- `Type`
  pub chain_id : Bytes
  pub thumbprint : Bytes
  pub peer_id : Bytes
  pub private_key : Bytes
  pub enrolled_at : ℕ
  pub key : Option K

-- The cryptography and the JSON that the package calls.
pub record Crypto : Type 1 where
  pub Key : Type 0
  pub is_p256 : Key → Bool
  pub parse_pkcs8 : Bytes → Option (Parsed Key)
  pub marshal_pkcs8 : Key → Option Bytes
  -- `ecdsa.GenerateKey(elliptic.P256(), …)` of some randomness.
  pub generate : ℕ → Option Key
  pub public_bytes : Key → Option Bytes
  pub sha256 : Bytes → Bytes
  pub base64 : Bytes → Bytes
  pub marshal_jwk : PublicJwk → Option Bytes
  pub sign : Key → AssertionClaims → Option Bytes
  pub marshal_credential : Credential Key → Option Bytes
  pub unmarshal_credential : Bytes → Option (Credential Key)
  pub generate-is_p256 : (entropy : ℕ) (k : Key) → generate entropy ≡ some k → is_p256 k ≡ true
  pub parse_empty : parse_pkcs8 [] ≡ none
  pub parse-marshal : (k : Key) (b : Bytes) → marshal_pkcs8 k ≡ some b → parse_pkcs8 b ≡ some (ec k)
  pub unmarshal-marshal :
      (c : Credential Key) (b : Bytes)
      → marshal_credential c ≡ some b
      → unmarshal_credential b ≡ some (record c { key = none })

-- `Options`, less the directory.
pub record Options : Type 0 where
  pub issuer : Bytes
  pub join_key : Bytes
  pub peer_id : Bytes
  pub label : Bytes

pub record EnrollRequest : Type 0 where
  pub join_token : Bytes
  pub public_jwk : PublicJwk
  pub enroll_assertion : Bytes
  pub peer_id : Bytes
  pub label : Bytes

pub record EnrollResponse : Type 0 where
  pub client_id : Bytes
  pub type_name : Bytes  -- `Type`
  pub chain_id : Bytes
  pub error : Bytes

-- What `RetryPostRequest` gives: the parsed body, the status, 0 for none, and whether it failed.
pub record EnrollReply : Type 0 where
  pub parsed : Option EnrollResponse
  pub status : ℕ
  pub failed : Bool

-- The answers of everything outside during one call: whether each step on the file system
-- succeeds, the randomness, the clock in seconds, and the auth service.
pub record World : Type 0 where
  pub writable : Bool
  pub pending_tightened : Bool
  pub pending_written : Bool
  pub entropy : ℕ
  pub now : ℕ
  pub jti : Bytes
  pub post : Bytes → EnrollRequest → EnrollReply
  pub dir_made : Bool
  pub tightened : Bool
  pub written : Bool
  pub cleared : Bool

abbrev trim_slashes : Bytes → Bytes
trim_slashes [] = []
trim_slashes (b ∷ bs) =
    let rest = trim_slashes bs in if is_empty rest && (b == 47) then [] else b ∷ rest

-- `NormalizeIssuer`
unfoldable pub normalize_issuer : Bytes → Bytes
normalize_issuer raw = trim_slashes raw

abbrev pub enroll_path : Bytes
enroll_path = codes "/api/v1/gateways/enroll"

abbrev coord_len : ℕ
coord_len = 32

abbrev starts_with : ℕ → Bytes → Bool
starts_with n [] = false
starts_with n (b ∷ bs) = b == n

-- The switch of `Enroll` on the status of the answer.
unfoldable pub classify : EnrollReply → Result EnrollError (Unit {0})
classify r =
    let detail : Bytes = elim r.parsed [ none ↦ [] | some body ↦ body.error ] in
    if r.status == 200 || (r.status == 201)
    then guard (not r.failed) post_failed
    else (if r.status == 401
        then err invalid_enrollment
        else (if r.status == 409
            then err (conflict detail)
            else err (unexpected_status r.status detail)))

-- The body of a success.
unfoldable pub response_of : EnrollReply → Result EnrollError EnrollResponse
response_of r = elim r.parsed [
  | none ↦ err missing_client_id
  | some body ↦ if is_empty body.client_id then err missing_client_id else ok body
]

module _ (crypto : Crypto) where
  abbrev pub Cred : Type 0
  Cred = Credential crypto.Key

  -- `jwkFromPublic`
  unfoldable pub jwk_from_public : crypto.Key → Result EnrollError PublicJwk
  jwk_from_public k = elim (crypto.public_bytes k) [
    | none ↦ err encode_failed
    | some raw ↦
        if not (length raw == 65) || not (starts_with 4 raw)
        then err encode_failed
        else ok (record {
          crv = codes "P-256";
          kty = codes "EC";
          x = crypto.base64 (take 32 (drop 1 raw));
          y = crypto.base64 (drop 33 raw);
        })
  ]

  -- `Thumbprint`
  unfoldable pub thumbprint_of : PublicJwk → Result EnrollError Bytes
  thumbprint_of j = elim (crypto.marshal_jwk j) [
    | none ↦ err encode_failed
    | some canonical ↦ ok (crypto.base64 (crypto.sha256 canonical))
  ]

  -- `ensureKey`: the key that the credential then holds.
  unfoldable pub ensure_key : Cred → Result EnrollError crypto.Key
  ensure_key c = elim c.key [
    | some k ↦ ok k
    | none ↦
        if is_empty c.private_key
        then err no_private_key
        else elim (crypto.parse_pkcs8 c.private_key) [
          | none ↦ err bad_private_key
          | some parsed ↦ elim parsed [
            | other_key ↦ err not_ecdsa
            | ec k ↦ if crypto.is_p256 k then ok k else err not_p256
          ]
        ]
  ]

  -- `signAssertion` at a time.
  unfoldable pub sign_assertion :
      crypto.Key
      → (subject aud peer_id : Bytes) → (now : ℕ) → (jti : Bytes) → Result EnrollError Bytes
  sign_assertion k subject aud peer_id now jti =
      or_fail
        (crypto.sign k (record {
          iss = subject;
          sub = subject;
          aud = aud;
          iat = now;
          exp = now + 60;
          jti = jti;
          peer_id = (if is_empty peer_id then none else some peer_id);
        }))
        sign_failed

  -- What `Load` does with the bytes of the file.
  unfoldable pub load_bytes : Bytes → Result EnrollError Cred
  load_bytes raw = do
    c ← or_fail (crypto.unmarshal_credential raw) parse_failed
    guard (not (is_empty c.client_id)) no_client_id
    k ← ensure_key c
    jwk ← jwk_from_public k
    derived ← thumbprint_of jwk
    guard (text_eq derived c.thumbprint) thumbprint_mismatch
    ok (record c { key = some k })

  -- `Load`
  unfoldable pub load : File → Result EnrollError Cred
  unfolding load_bytes
  load missing = err not_exist
  load unreadable = err read_failed
  load (holds raw) = load_bytes raw

  -- The part of `Save` that fills the thumbprint.
  unfoldable pub with_thumbprint : Cred → Result EnrollError Cred
  with_thumbprint c = if not (is_empty c.thumbprint) then ok c else (do
    k ← ensure_key c
    jwk ← jwk_from_public k
    t ← thumbprint_of jwk
    ok (record c { key = some k; thumbprint = t }))

  -- The keypair of a pending file, where it loads.
  unfoldable pub resumable : File → Option (crypto.Key × Bytes)
  resumable missing = none
  resumable unreadable = none
  resumable (holds pkcs8) = elim (crypto.parse_pkcs8 pkcs8) [
    | none ↦ none
    | some parsed ↦ elim parsed [
      | other_key ↦ none
      | ec k ↦ if crypto.is_p256 k then some (k, pkcs8) else none
    ]
  ]
