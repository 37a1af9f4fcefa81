-- ===== src/MumP2p/Admission/Model.antt =====
-- The goroutines of a node of pkg/service/mum_p2p, interleaved, with what the handshakes granted so
-- far.
use optimum_gateway.Base.{
  ℕ, zero, suc, Bool, true, false, not, ◌&&◌, ◌||◌, Option, none, some, List, [], ◌∷◌, ◌≡◌,
}
use optimum_gateway.Base.Wire.{Bytes}
use optimum_gateway.Base.Maps.{RwMap}
use optimum_gateway.Forks.{is_some}
use optimum_gateway.Topics.TopicMeta.{text_key}
use optimum_gateway.Utils.Text.{text_eq}
use optimum_gateway.MumP2p.Peers.{
  StateMap, AdmissionControl, Node, new_node, get_peer_state, call, Thread, finished, calls,
  reads_state, reads_capability, verifies, tries, handle_handshake, handle_new_connection,
  is_valid_state, peer_disconnected,
}

-- The handshakes that were verified so far, with the capability that each granted.
abbrev pub Granted : Type 0
Granted = List (Bytes × Bool)

abbrev pub add_grant : Granted → Bytes → Option Bool → Granted
add_grant g p none = g
add_grant g p (some c) = (p, c) ∷ g

-- A handshake of the peer was verified.
abbrev pub is_granted : Granted → Bytes → Bool
is_granted [] p = false
is_granted ((q, c) ∷ g) p = text_eq q p || is_granted g p

-- One of them granted publishing.
abbrev pub may_publish : Granted → Bytes → Bool
may_publish [] p = false
may_publish ((q, c) ∷ g) p = text_eq q p && c || may_publish g p

-- A capability, where there is one, is covered by the handshakes of the peer.
abbrev pub covers : Granted → Bytes → Option Bool → Bool
covers g p none = true
covers g p (some c) = is_granted g p && (not c || may_publish g p)

-- What the world says in a turn: the time, whether the network succeeds, and the capability of the
-- message that is verified.
pub record Turn : Type 0 where
  pub now : ℕ
  pub succeeds : Bool
  pub answer : Option Bool

-- A stream with a handshake, a connection with the number of ticks of its wait, a turn of a
-- goroutine, counted from the youngest, and a peer that disconnects.
pub data Event : Type 0 where
  handshakes : Bytes → Event
  connects : Bytes → (outbound : Bool) → (ticks : ℕ) → Event
  turns : ℕ → Turn → Event
  disconnects : Bytes → Event

abbrev pub thread_at : ℕ → List Thread → Thread
thread_at i [] = finished
thread_at zero (th ∷ ths) = th
thread_at (suc i) (th ∷ ths) = thread_at i ths

abbrev pub replace_at : ℕ → Thread → List Thread → List Thread
replace_at i new [] = []
replace_at zero new (th ∷ ths) = new ∷ ths
replace_at (suc i) new (th ∷ ths) = th ∷ replace_at i new ths

module _ (states : StateMap) (approved : RwMap Bytes (Unit {0}) text_key)
    (capabilities : RwMap Bytes Bool text_key) (ps : AdmissionControl) where
  pub record System : Type 0 where
    pub node : Node states approved capabilities ps
    pub threads : List Thread
    pub granted : Granted

  unfoldable pub new_system : System
  new_system = record {
    node = new_node states approved capabilities ps;
    threads = [];
    granted = [];
  }

  -- The next action of the goroutine at an index, which goes on with what is left.
  unfoldable pub take_turn : Turn → System → ℕ → Thread → System
  take_turn t s i finished = s
  take_turn t s i (calls c next) = record s {
    node = call states approved capabilities ps s.node t.now c;
    threads = replace_at i next s.threads;
  }
  take_turn t s i (reads_state p next) = record s {
    threads =
        replace_at i (next (get_peer_state states approved capabilities ps s.node t.now p))
          s.threads;
  }
  take_turn t s i (reads_capability p next) = record s {
    threads = replace_at i (next (capabilities.load s.node.peer_capabilities p)) s.threads;
  }
  take_turn t s i (verifies p next) = record s {
    threads = replace_at i (next t.answer) s.threads;
    granted = add_grant s.granted p t.answer;
  }
  take_turn t s i (tries next) = record s { threads = replace_at i (next t.succeeds) s.threads }

  unfoldable pub step : System → Event → System
  unfolding take_turn
  step s (handshakes p) = record s { threads = handle_handshake p ∷ s.threads }
  step s (connects p outbound ticks) = record s {
    threads = handle_new_connection p outbound ticks ∷ s.threads;
  }
  step s (turns i t) = take_turn t s i (thread_at i s.threads)
  step s (disconnects p) = record s {
    node = peer_disconnected states approved capabilities ps s.node p;
  }

  unfoldable pub run : System → List Event → System
  unfolding step
  run s [] = s
  run s (e ∷ es) = run (step s e) es

  -- The mesh, the capabilities, the peers that are let through and the valid marks are all covered
  -- by handshakes that were verified.
  pub record IsCovered (n : Node states approved capabilities ps) (g : Granted) : Type 0 where
    pub admits : (p : Bytes) → covers g p (ps.admitted n.pubsub p) ≡ true
    pub cached : (p : Bytes) → covers g p (capabilities.load n.peer_capabilities p) ≡ true
    pub listed :
        (p : Bytes)
        → (not (is_some (approved.load n.peers_approved_map p)) || is_granted g p) ≡ true
    pub valid :
        (now : ℕ) (p : Bytes)
        → (not (is_valid_state (states.get n.peers_map now p)) || is_granted g p) ≡ true
