-- ===== src/Enrollment/Tests.antt =====
-- The theorems on enrolling at a cryptography whose keys are numbers.
use optimum_gateway.Base.{
  ℕ, zero, suc, ◌≡◌, refl, ap, subst, true, false, Option, none, some, [], ◌∷◌, ◌++◌, length, ok,
  take, drop,
}
use optimum_gateway.Base.Wire.{Bytes}
use optimum_gateway.Utils.Text.{codes}
use optimum_gateway.Enrollment.Actions.{missing, holds}
use optimum_gateway.Enrollment.{
  Credential, Crypto, Options, EnrollRequest, World, ec, Parsed, jwk_from_public, thumbprint_of,
  load, with_thumbprint, classify, response_of, resumable, Cred, normalize_issuer, sign_assertion,
}
use optimum_gateway.Enrollment.Enroll.{
  Folder, save, clear_pending_key, new_pending_key, pending_key, finish_enroll, enroll,
  load_or_enroll,
}
use optimum_gateway.Enrollment.Resume.{
  enroll-load, load_or_enroll-enroll, enroll-again, load_or_enroll-holds,
}

abbrev field : Bytes → Bytes → Bytes
field b rest = length b ∷ (b ++ rest)

abbrev read_field : {A : Type 0} → (Bytes → Bytes → Option A) → Bytes → Option A
read_field k [] = none
read_field k (n ∷ bs) = k (take n bs) (drop n bs)

take-field : (b rest : Bytes) → take (length b) (b ++ rest) ≡ b
take-field [] rest = refl
take-field (x ∷ b) rest = ap (λ xs. x ∷ xs) (take-field b rest)

drop-field : (b rest : Bytes) → drop (length b) (b ++ rest) ≡ rest
drop-field [] rest = refl
drop-field (x ∷ b) rest = drop-field b rest

abbrev print_credential : Credential ℕ → Bytes
print_credential c =
    c.enrolled_at
    ∷ field c.client_id
        (field c.type_name (field c.chain_id (field c.thumbprint (field c.peer_id c.private_key))))

parse_credential : Bytes → Option (Credential ℕ)
parse_credential [] = none
parse_credential (t ∷ bs) =
    read_field
      (λ a. read_field (λ b. read_field (λ c. read_field (λ d. read_field (λ e f. some (record {
        client_id = a;
        type_name = b;
        chain_id = c;
        thumbprint = d;
        peer_id = e;
        private_key = f;
        enrolled_at = t;
        key = none;
      }))))))
      bs

parse-print :
    (c : Credential ℕ) → parse_credential (print_credential c) ≡ some (record c { key = none })
unfolding parse_credential
parse-print c = simp (take-field, drop-field)

abbrev repeat : ℕ → ℕ → Bytes
repeat zero b = []
repeat (suc n) b = b ∷ repeat n b

abbrev parse_key : Bytes → Option (Parsed ℕ)
parse_key [] = none
parse_key (k ∷ bs) = some (ec k)

parse-key : (k : ℕ) (b : Bytes) → some (k ∷ []) ≡ some b → parse_key b ≡ some (ec k)
parse-key k [] e = absurd (cc)
parse-key k (x ∷ b) e = cc

parse-some :
    (c : Credential ℕ) (b : Bytes)
    → some (print_credential c) ≡ some b
    → parse_credential b ≡ some (record c { key = none })
parse-some c b e =
    subst (λ x. parse_credential x ≡ some (record c { key = none })) (cc) (parse-print c)

abbrev crypto : Crypto
crypto = record {
  Key = ℕ;
  is_p256 = λ k. true;
  parse_pkcs8 = parse_key;
  marshal_pkcs8 = λ k. some (k ∷ []);
  generate = λ entropy. some entropy;
  public_bytes = λ k. some (4 ∷ repeat 64 k);
  sha256 = λ b. b;
  base64 = λ b. b;
  marshal_jwk = λ j. some (take 4 j.x);
  sign = λ k claims. some claims.iss;
  marshal_credential = λ c. some (print_credential c);
  unmarshal_credential = parse_credential;
  generate-is_p256 = λ entropy k e. refl;
  parse_empty = refl;
  parse-marshal = parse-key;
  unmarshal-marshal = parse-some;
}

abbrev opts : Options
opts = record {
  issuer = codes "https://auth/";
  join_key = codes "ojk_1";
  peer_id = codes "peer";
  label = codes "host";
}

-- A world where everything succeeds and the auth service answers with a status.
abbrev world : ℕ → ℕ → World
world status entropy = record {
  writable = true;
  pending_tightened = true;
  pending_written = true;
  entropy = entropy;
  now = 100;
  jti = codes "id";
  post = λ url request. record {
    parsed = some (record {
      client_id = codes "c1";
      type_name = codes "hub";
      chain_id = codes "1";
      error = [];
    });
    status = status;
    failed = false;
  };
  dir_made = true;
  tightened = true;
  written = true;
  cleared = true;
}

abbrev empty_place : Folder
empty_place = record { credential = missing; pending = missing; posted = [] }

issuer_normalized : normalize_issuer (codes "https://auth//") ≡ codes "https://auth"
unfolding normalize_issuer
issuer_normalized = refl

abbrev enrolled : Cred crypto
enrolled = record {
  client_id = codes "c1";
  type_name = codes "hub";
  chain_id = codes "1";
  thumbprint = repeat 4 7;
  peer_id = codes "peer";
  private_key = 7 ∷ [];
  enrolled_at = 100;
  key = some 7;
}

enroll_runs : (enroll crypto (world 201 7) opts empty_place).1 ≡ ok enrolled
unfolding enroll pending_key resumable new_pending_key jwk_from_public thumbprint_of sign_assertion
    finish_enroll clear_pending_key classify response_of save with_thumbprint
enroll_runs = refl

-- The first attempt is answered with a 503, the second with a 201.
abbrev after_503 : Folder
after_503 = (enroll crypto (world 503 7) opts empty_place).0

abbrev request : EnrollRequest
request = record {
  join_token = codes "ojk_1";
  public_jwk = record { crv = codes "P-256"; kty = codes "EC"; x = repeat 32 7; y = repeat 32 7 };
  enroll_assertion = repeat 4 7;
  peer_id = codes "peer";
  label = codes "host";
}

enroll-again_example : request.public_jwk ≡ request.public_jwk
unfolding enroll pending_key resumable new_pending_key jwk_from_public thumbprint_of sign_assertion
    finish_enroll clear_pending_key classify response_of save with_thumbprint normalize_issuer
enroll-again_example =
    enroll-again crypto (world 503 7) (world 201 9) opts opts empty_place request request _ refl
      refl refl refl

enroll-load_example :
    (load crypto (enroll crypto (world 201 7) opts empty_place).0.credential ≡ ok enrolled)
    × (enrolled.peer_id ≡ opts.peer_id)
unfolding enroll pending_key resumable new_pending_key jwk_from_public thumbprint_of sign_assertion
    finish_enroll clear_pending_key classify response_of save with_thumbprint normalize_issuer
enroll-load_example = enroll-load crypto (world 201 7) opts empty_place _ enrolled refl

load_or_enroll-enroll_example :
    ((load_or_enroll crypto (world 500 9) opts (enroll crypto (world 201 7) opts empty_place).0).1
      ≡ ok (enrolled, true))
    × ((load_or_enroll crypto
          (world 500 9)
          opts
          (enroll crypto (world 201 7) opts empty_place).0).0.posted
        ≡ (enroll crypto (world 201 7) opts empty_place).0.posted)
    × ((load_or_enroll crypto
          (world 500 9)
          opts
          (enroll crypto (world 201 7) opts empty_place).0).0.credential
        ≡ (enroll crypto (world 201 7) opts empty_place).0.credential)
unfolding enroll pending_key resumable new_pending_key jwk_from_public thumbprint_of sign_assertion
    finish_enroll clear_pending_key classify response_of save with_thumbprint normalize_issuer
load_or_enroll-enroll_example =
    load_or_enroll-enroll crypto (world 201 7) (world 500 9) opts opts empty_place
      (enroll crypto (world 201 7) opts empty_place).0 enrolled refl refl

abbrev damaged : Folder
damaged = record { credential = holds (1 ∷ 2 ∷ []); pending = missing; posted = [] }

load_or_enroll-holds_example :
    ((load_or_enroll crypto (world 201 7) opts damaged).0.posted ≡ [])
    × ((load_or_enroll crypto (world 201 7) opts damaged).0.credential ≡ holds (1 ∷ 2 ∷ []))
load_or_enroll-holds_example =
    load_or_enroll-holds crypto (world 201 7) opts damaged (λ e. absurd (cc (e)))
