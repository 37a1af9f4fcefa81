-- ===== src/Gateway/Handshake.antt =====
-- pkg/service/gossipsub-gateway/handshake.go: the mumP2P mesh handshake. A handshake that does not
-- decode is none; a capability is whether the peer may publish.
use optimum_gateway.Base.{
  ◌≡◌, ◌↔◌, refl, sym, ap, subst, ◌∙◌, arith, Bool, true, false, not, ◌||◌, Option, none, some,
  List, [], ◌∷◌, ◌++◌, if◌then◌else◌, Result, ok, err, guard, ◌>>=◌, ◌>>◌, or_fail, inl, inr, ◌⊎◌,
  Bool-cases,
}
use optimum_gateway.Base.Wire.{Bytes}
use optimum_gateway.Utils.Text.{text_eq}
use optimum_gateway.Utils.Text.Laws.{text_eq_iff}
use optimum_gateway.AuthToken.{Claims, Manager, verify_token, is_enabled, VerifyError}

pub record Handshake : Type 0 where
  pub cluster_id : Bytes
  pub jwt_token : Bytes
  pub commit_hash : Bytes

pub data HandshakeError : Type 0 where
  not_decoded invalid_cluster invalid_token empty_claims : HandshakeError
  peer_mismatch missing_cluster_claim cluster_not_authorized : HandshakeError

-- `handshakeBuilder`, of what `HandshakeToken` gives, the empty text on an error.
unfoldable pub handshake_builder : Bytes → Bytes → Option Bytes → Handshake
handshake_builder cluster commit token = record {
  cluster_id = cluster;
  jwt_token = elim token [ none ↦ [] | some t ↦ t ];
  commit_hash = commit;
}

-- `slices.Contains`
abbrev pub contains_text : List Bytes → Bytes → Bool
contains_text [] t = false
contains_text (x ∷ xs) t = text_eq x t || contains_text xs t

abbrev no_clusters : List Bytes → Bool
no_clusters [] = true
no_clusters (x ∷ xs) = false

abbrev pub peer_of : Claims → Bytes
peer_of c = elim c.cnf_peer_id [ none ↦ [] | some p ↦ p ]

-- `handshakeHandler` on the claims of a token that verifies.
unfoldable pub check_claims : Bytes → Bytes → Claims → Result HandshakeError Bool
check_claims cluster peer c = do
  guard (text_eq (peer_of c) peer) peer_mismatch
  guard (not (no_clusters c.cluster_ids)) missing_cluster_claim
  guard (contains_text c.cluster_ids cluster) cluster_not_authorized
  ok c.can_publish

module _ (verify : Bytes → Bytes → Option Claims) (chain_of : Bytes → Option Bytes) where
  -- `handshakeHandler`, of the gateway's cluster and whether auth is on in its configuration.
  unfoldable pub handshake_handler :
      Manager
      → (cluster : Bytes) → (enable_auth : Bool) → (peer : Bytes) → Option Handshake
      → Result HandshakeError Bool
  unfolding check_claims
  handshake_handler m cluster enable_auth peer decoded = do
    h ← or_fail decoded not_decoded
    guard (text_eq h.cluster_id cluster) invalid_cluster
    (elim (verify_token verify chain_of m h.jwt_token) [
      | err e ↦ err invalid_token
      | ok claims ↦ elim claims [
        | none ↦ if enable_auth then err empty_claims else ok true
        | some c ↦ check_claims cluster peer c
      ]
    ])

-- A text among others.
abbrev pub IsAmong : Bytes → List Bytes → Type 0
IsAmong t xs = (before : List Bytes) × (after : List Bytes) × (xs ≡ before ++ (t ∷ after))

contains_text_sound : (xs : List Bytes) (t : Bytes) → contains_text xs t ≡ true → IsAmong t xs
contains_text_sound [] t h = absurd (cc)
contains_text_sound (x ∷ xs) t h = elim (Bool-cases (text_eq x t)) [
  | inl y ↦ ([], xs, ap (λ y. y ∷ xs) ((text_eq_iff x t).0 y))
  | inr n ↦
      let (before, after, e) = contains_text_sound xs t (ground (arith, n, h)) in
      (x ∷ before, after, ap (λ ys. x ∷ ys) e)
]

contains_text_complete :
    (before after : List Bytes) (t : Bytes) → contains_text (before ++ (t ∷ after)) t ≡ true
contains_text_complete [] after t = ground (arith, (text_eq_iff t t).1 refl)
contains_text_complete (x ∷ before) after t = ground (arith, contains_text_complete before after t)

contains_text-clusters :
    (xs : List Bytes) (t : Bytes) → contains_text xs t ≡ true → no_clusters xs ≡ false
contains_text-clusters [] t h = absurd (cc)
contains_text-clusters (x ∷ xs) t h = refl

-- What the claims of an admitted peer say.
abbrev pub Admits : Bytes → Bytes → Claims → Bool → Type 0
Admits cluster peer c capability =
    (peer_of c ≡ peer) × IsAmong cluster c.cluster_ids × (capability ≡ c.can_publish)

check_claims_sound :
    (cluster peer : Bytes) (c : Claims) (capability : Bool)
    → check_claims cluster peer c ≡ ok capability
    → Admits cluster peer c capability
unfolding check_claims
check_claims_sound cluster peer c capability h =
    let owned : text_eq (peer_of c) peer ≡ true = ground (arith, h) in
    let member : contains_text c.cluster_ids cluster ≡ true = ground (arith, h) in
    (
      (text_eq_iff (peer_of c) peer).0 owned,
      contains_text_sound c.cluster_ids cluster member,
      ground (arith, h),
    )

check_claims_complete :
    (cluster peer : Bytes) (c : Claims) (capability : Bool)
    → Admits cluster peer c capability
    → check_claims cluster peer c ≡ ok capability
unfolding check_claims
check_claims_complete cluster peer c capability (owned, (before, after, e), granted) =
    let member : contains_text c.cluster_ids cluster ≡ true =
      ap (λ xs. contains_text xs cluster) e ∙ contains_text_complete before after cluster in
    ground (
      arith,
      (text_eq_iff (peer_of c) peer).1 owned,
      member,
      contains_text-clusters c.cluster_ids cluster member,
      granted,
    )

module _ (verify : Bytes → Bytes → Option Claims) (chain_of : Bytes → Option Bytes) where
  -- How a handshake may be admitted: auth is off on both sides of the configuration and the peer gets
  -- the full capability, or its token verifies and its claims admit it.
  abbrev pub IsAdmitted : Manager → Bytes → Bool → Bytes → Handshake → Bool → Type 0
  IsAdmitted m cluster enable_auth peer h capability =
      ((is_enabled m ≡ false) × (enable_auth ≡ false) × (capability ≡ true))
      ⊎ ((c : Claims) × (verify_token verify chain_of m h.jwt_token ≡ ok (some c))
          × Admits cluster peer c capability)

  verify_token-none :
      (m : Manager) (raw : Bytes)
      → verify_token verify chain_of m raw ≡ ok none
      → is_enabled m ≡ false
  unfolding verify_token
  verify_token-none m raw h = ground (arith, h)

  verify_token-disabled :
      (m : Manager) (raw : Bytes)
      → is_enabled m ≡ false
      → verify_token verify chain_of m raw ≡ ok none
  unfolding verify_token
  verify_token-disabled m raw h = ground (arith, h)

  -- The handler admits a peer with a capability exactly when the handshake decodes, names the
  -- gateway's own cluster, and either auth is off and the capability is the full one, or its token
  -- verifies with claims that are bound to this peer, list the cluster, and grant that capability.
  pub handshake_handler_iff :
      (m : Manager) (cluster : Bytes) (enable_auth : Bool) (peer : Bytes)
      (decoded : Option Handshake) (capability : Bool)
      → (handshake_handler verify chain_of m cluster enable_auth peer decoded ≡ ok capability) ↔ (
          (h : Handshake) × (decoded ≡ some h)
          × (h.cluster_id ≡ cluster)
          × IsAdmitted m cluster enable_auth peer h capability)
  unfolding handshake_handler
  handshake_handler_iff m cluster enable_auth peer none capability =
      (λ e. absurd (cc), λ w. absurd (cc (w.1)))
  handshake_handler_iff m cluster enable_auth peer (some h) capability = (
    λ e. elim (Bool-cases (text_eq h.cluster_id cluster)) [
      | inr n ↦ absurd (ground (arith, n, e))
      | inl y ↦ (
        h,
        refl,
        (text_eq_iff h.cluster_id cluster).0 y,
        admitted y e (verify_token verify chain_of m h.jwt_token) refl,
      )
    ],
    λ (h', e, named, how).
        let same : h' ≡ h = cc (e) in
        let own : text_eq h.cluster_id cluster ≡ true =
          (text_eq_iff h.cluster_id cluster).1
            (ap (λ (x : Handshake). x.cluster_id) (sym same) ∙ named) in
        handled own (subst (λ x. IsAdmitted m cluster enable_auth peer x capability) same how),
  )
    where
      admitted :
          text_eq h.cluster_id cluster ≡ true
          → handshake_handler verify chain_of m cluster enable_auth peer (some h) ≡ ok capability
          → (v : Result (VerifyError verify chain_of) (Option Claims))
          → verify_token verify chain_of m h.jwt_token ≡ v
          → IsAdmitted m cluster enable_auth peer h capability
      admitted y e (err x) v = absurd (ground (arith, y, e, v))
      admitted y e (ok none) v =
          inl (verify_token-none m h.jwt_token v, ground (arith, y, e, v), ground (arith, y, e, v))
      admitted y e (ok (some c)) v =
          inr (c, v, check_claims_sound cluster peer c capability (ground (arith, y, e, v)))

      handled :
          text_eq h.cluster_id cluster ≡ true
          → IsAdmitted m cluster enable_auth peer h capability
          → handshake_handler verify chain_of m cluster enable_auth peer (some h) ≡ ok capability
      handled y (inl (disabled, off, full)) =
          ground (arith, y, verify_token-disabled m h.jwt_token disabled, off, full)
      handled y (inr (c, v, admits)) =
          ground (arith, y, v, check_claims_complete cluster peer c capability admits)
