-- ===== src/MumP2p/Peers.antt =====
-- The peers of a node of pkg/service/mum_p2p: handshake.go and the state in service.go. The handlers
-- run in goroutines without a lock, so each is the sequence of its calls on the shared maps and on
-- the network, and the goroutines interleave between any two calls (Admission). Each single call of a
-- syncx map or of the pubsub is atomic. The pubsub is set; a peer's own disconnection is an event.
use optimum_gateway.Base.{
  ℕ, zero, suc, ◌≡◌, Bool, true, false, not, Option, none, some, if◌then◌else◌, ◌⊎◌,
}
use optimum_gateway.Base.Wire.{Bytes}
use optimum_gateway.Base.Maps.{RwMap}
use optimum_gateway.Topics.TopicMeta.{text_key}
use optimum_gateway.Utils.Text.{text_eq}

-- `PeerState` of pkg/entities
pub data PeerState : Type 0 where
  handshake_valid handshake_invalid : PeerState

-- `syncx.TTLMap[peer.ID, PeerState]`: an entry is what was last put, until it expires.
pub record StateMap : Type 1 where
  pub Map : Type 0
  pub empty : Map
  pub get : Map → ℕ → Bytes → Option PeerState
  pub put : Map → ℕ → Bytes → PeerState → Map
  pub delete : Map → Bytes → Map
  pub get_empty : (now : ℕ) (p : Bytes) → get empty now p ≡ none
  pub get-put :
      (m : Map) (at : ℕ) (p : Bytes) (s : PeerState) (now : ℕ) (q : Bytes)
      → (get (put m at p s) now q ≡ (if text_eq p q then some s else get m now q))
        ⊎ (get (put m at p s) now q ≡ none)
  pub get-delete :
      (m : Map) (p : Bytes) (now : ℕ) (q : Bytes)
      → get (delete m p) now q ≡ (if text_eq p q then none else get m now q)

-- The admission control of github.com/getoptimum/optimum-p2p: the capability that a peer is admitted
-- to the mesh with, none where it is not. It revokes a peer's admission when the peer disconnects.
pub record AdmissionControl : Type 1 where
  pub State : Type 0
  pub new : State
  pub admitted : State → Bytes → Option Bool
  pub allow_peer_with_capability : State → Bytes → Bool → State
  pub deny_peer : State → Bytes → State
  pub disconnected : State → Bytes → State
  pub admitted_new : (q : Bytes) → admitted new q ≡ none
  pub admitted-allow :
      (s : State) (p : Bytes) (c : Bool) (q : Bytes)
      → admitted (allow_peer_with_capability s p c) q
        ≡ (if text_eq p q then some c else admitted s q)
  pub admitted-deny :
      (s : State) (p q : Bytes)
      → admitted (deny_peer s p) q ≡ (if text_eq p q then none else admitted s q)
  pub admitted-disconnected :
      (s : State) (p q : Bytes)
      → admitted (disconnected s p) q ≡ (if text_eq p q then none else admitted s q)

-- One call that changes a map of `Node` or the pubsub.
pub data Call : Type 0 where
  put_state : Bytes → PeerState → Call
  delete_state approve disapprove forget : Bytes → Call
  cache : Bytes → Bool → Call
  allow_with_capability : Bytes → Bool → Call
  deny : Bytes → Call

-- What a goroutine has left to do: a call; a read of the state or of the capability of a peer; what
-- `handshakeHandler` answers of the peer's message, and whether a call of the network succeeds.
pub data Thread : Type 0 where
  finished : Thread
  calls : Call → Thread → Thread
  reads_state : Bytes → (Option PeerState → Thread) → Thread
  reads_capability : Bytes → (Option Bool → Thread) → Thread
  verifies : Bytes → (Option Bool → Thread) → Thread
  tries : (Bool → Thread) → Thread

-- `setPeerState`, and what follows it.
unfoldable pub set_peer_state : Bytes → PeerState → Bool → Thread → Thread
set_peer_state p handshake_valid capability next =
    calls (put_state p handshake_valid) (calls (approve p) (calls (cache p capability) next))
set_peer_state p handshake_invalid capability next =
    calls (put_state p handshake_invalid)
      (calls (delete_state p) (calls (disapprove p) (calls (forget p) next)))

-- `markHandshakeValid`
unfoldable pub mark_handshake_valid : Bytes → Bool → Thread → Thread
unfolding set_peer_state
mark_handshake_valid p capability next =
    set_peer_state p handshake_valid capability (calls (allow_with_capability p capability) next)

-- `readmitCapability`
unfoldable pub readmit_capability : Bytes → (Bool → Thread) → Thread
readmit_capability p next =
    reads_capability p (λ o. elim o [ none ↦ next false | some capability ↦ next capability ])

-- `disconnectPeer`, up to closing the connection.
unfoldable pub disconnect_peer : Bytes → Thread → Thread
unfolding set_peer_state
disconnect_peer p next = set_peer_state p handshake_invalid false (calls (deny p) next)

-- The handler of `RegisterHandshakeHandler`.
unfoldable pub handle_handshake : Bytes → Thread
unfolding mark_handshake_valid disconnect_peer
handle_handshake p = verifies p (λ answer. elim answer [
  | none ↦ disconnect_peer p finished
  | some capability ↦ tries (λ replied.
      if replied then mark_handshake_valid p capability finished else disconnect_peer p finished)
])

-- `sendHandshakeForPeer`; whether it succeeds goes to what follows.
unfoldable pub send_handshake_for_peer : Bytes → (Bool → Thread) → Thread
unfolding mark_handshake_valid disconnect_peer
send_handshake_for_peer p next = tries (λ opened.
    if not opened
    then next false
    else tries (λ encoded.
      if not encoded
      then disconnect_peer p (next false)
      else tries (λ closed.
        if not closed
        then disconnect_peer p (next false)
        else verifies p (λ answer. elim answer [
          | none ↦ disconnect_peer p (next false)
          | some capability ↦ mark_handshake_valid p capability (next true)
        ]))))

abbrev pub is_valid_state : Option PeerState → Bool
is_valid_state none = false
is_valid_state (some handshake_valid) = true
is_valid_state (some handshake_invalid) = false

-- `waitHandshakeValid`, whose select takes some ticks before the deadline.
unfoldable pub wait_handshake_valid : (ticks : ℕ) → Bytes → (Bool → Thread) → Thread
wait_handshake_valid zero p next = next false
wait_handshake_valid (suc ticks) p next =
    let again = wait_handshake_valid ticks p next in
    reads_state p (λ o. if is_valid_state o then next true else again)

-- `handleNewConnection`, of an outbound or an inbound connection.
unfoldable pub handle_new_connection : Bytes → (outbound : Bool) → (ticks : ℕ) → Thread
unfolding readmit_capability disconnect_peer send_handshake_for_peer wait_handshake_valid
handle_new_connection p outbound ticks =
    let on_result : Bool → Thread =
      λ succeeded. if succeeded then finished else disconnect_peer p finished in
    let start =
      if outbound
      then send_handshake_for_peer p on_result
      else wait_handshake_valid ticks p on_result in
    reads_state p (λ o. elim o [
      | none ↦ start
      | some state ↦ elim state [
        | handshake_valid ↦
            readmit_capability p (λ capability. calls (allow_with_capability p capability) finished)
        | handshake_invalid ↦ disconnect_peer p finished
      ]
    ])

module _ (states : StateMap) (approved : RwMap Bytes (Unit {0}) text_key)
    (capabilities : RwMap Bytes Bool text_key) (ps : AdmissionControl) where
  -- The maps of `Node` and its pubsub.
  pub record Node : Type 0 where
    pub peers_map : states.Map
    pub peers_approved_map : approved.Map
    pub peer_capabilities : capabilities.Map
    pub pubsub : ps.State

  unfoldable pub new_node : Node
  new_node = record {
    peers_map = states.empty;
    peers_approved_map = approved.empty;
    peer_capabilities = capabilities.empty;
    pubsub = ps.new;
  }

  -- `getPeerState` at a time.
  unfoldable pub get_peer_state : Node → ℕ → Bytes → Option PeerState
  get_peer_state n now p = states.get n.peers_map now p

  unfoldable pub call : Node → ℕ → Call → Node
  call n now (put_state p s) = record n { peers_map = states.put n.peers_map now p s }
  call n now (delete_state p) = record n { peers_map = states.delete n.peers_map p }
  call n now (approve p) = record n {
    peers_approved_map = approved.store n.peers_approved_map p tt;
  }
  call n now (disapprove p) = record n {
    peers_approved_map = approved.delete n.peers_approved_map p;
  }
  call n now (cache p c) = record n {
    peer_capabilities = capabilities.store n.peer_capabilities p c;
  }
  call n now (forget p) = record n { peer_capabilities = capabilities.delete n.peer_capabilities p }
  call n now (allow_with_capability p c) = record n {
    pubsub = ps.allow_peer_with_capability n.pubsub p c;
  }
  call n now (deny p) = record n { pubsub = ps.deny_peer n.pubsub p }

  -- A peer that disconnects.
  unfoldable pub peer_disconnected : Node → Bytes → Node
  peer_disconnected n p = record n { pubsub = ps.disconnected n.pubsub p }
