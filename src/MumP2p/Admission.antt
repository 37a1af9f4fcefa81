-- ===== src/MumP2p/Admission.antt =====
-- What the node of pkg/service/mum_p2p keeps to whatever its peers do and however its goroutines
-- interleave: the mesh and the maps hold only what handshakes granted.
pub mod Model
mod Threads
use optimum_gateway.Base.{
  ℕ, zero, suc, ◌≡◌, refl, ap, arith, Bool, true, false, not, ◌||◌, Option, none, some, List, [],
  ◌∷◌, if◌then◌else◌, Each, inl, inr, Bool-cases,
}
use optimum_gateway.Base.Wire.{Bytes}
use optimum_gateway.Base.Maps.{RwMap}
use optimum_gateway.Forks.{is_some}
use optimum_gateway.Topics.TopicMeta.{text_key}
use optimum_gateway.Utils.Text.{text_eq}
use optimum_gateway.Utils.Text.Laws.{text_eq_iff}
use optimum_gateway.MumP2p.Peers.{
  handshake_valid, handshake_invalid, StateMap, AdmissionControl, Node, new_node, get_peer_state,
  Call, put_state, delete_state, approve, disapprove, cache, forget, allow_with_capability, deny,
  call, Thread, finished, calls, reads_state, reads_capability, verifies, tries, is_valid_state,
  peer_disconnected,
}
use optimum_gateway.MumP2p.Admission.Model.{
  Granted, add_grant, is_granted, covers, Turn, Event, handshakes, connects, turns, disconnects,
  thread_at, replace_at, System, new_system, take_turn, step, run, IsCovered,
}
use optimum_gateway.MumP2p.Admission.Threads.{
  backs, Grows, Grows-refl, Grows-add_grant, covers-Grows, IsSafe, IsSafe-Grows,
  handle_handshake-IsSafe, handle_new_connection-IsSafe,
}

is_granted-same :
    (g : Granted) (p q : Bytes)
    → (not (text_eq p q) || (not (is_granted g p) || is_granted g q)) ≡ true
is_granted-same g p q = elim (Bool-cases (text_eq p q)) [
  | inl y ↦ ground (arith, y, ap (is_granted g) ((text_eq_iff p q).0 y))
  | inr n ↦ ground (arith, n)
]

covers-same :
    (g : Granted) (p q : Bytes) (o : Option Bool)
    → (not (text_eq p q) || (not (covers g p o) || covers g q o)) ≡ true
covers-same g p q o = elim (Bool-cases (text_eq p q)) [
  | inl y ↦ ground (arith, y, ap (λ x. covers g x o) ((text_eq_iff p q).0 y))
  | inr n ↦ ground (arith, n)
]

-- An entry that was stored or removed at a key is covered where the others are.
stored-covers :
    (g : Granted) (p q : Bytes) (new old : Option Bool)
    → covers g p new ≡ true
    → covers g q old ≡ true
    → covers g q (if text_eq p q then new else old) ≡ true
stored-covers g p q new old n o = elim (Bool-cases (text_eq p q)) [
  | inl y ↦ rw y (ground (arith, y, n, covers-same g p q new))
  | inr m ↦ rw m o
]

thread_at-Each :
    (g : Granted) (i : ℕ) (ths : List Thread) → Each (IsSafe g) ths → IsSafe g (thread_at i ths)
thread_at-Each g i [] h = tt
thread_at-Each g zero (th ∷ ths) h = h.0
thread_at-Each g (suc i) (th ∷ ths) h = thread_at-Each g i ths h.1

replace_at-Each :
    (g : Granted) (i : ℕ) (new : Thread) (ths : List Thread)
    → IsSafe g new
    → Each (IsSafe g) ths
    → Each (IsSafe g) (replace_at i new ths)
replace_at-Each g i new [] n h = tt
replace_at-Each g zero new (th ∷ ths) n h = (n, h.1)
replace_at-Each g (suc i) new (th ∷ ths) n h = (h.0, replace_at-Each g i new ths n h.1)

Each-Grows :
    (g g' : Granted) (ths : List Thread) → Grows g g' → Each (IsSafe g) ths → Each (IsSafe g') ths
Each-Grows g g' [] w h = tt
Each-Grows g g' (th ∷ ths) w h = (IsSafe-Grows g g' th w h.0, Each-Grows g g' ths w h.1)

module _ (states : StateMap) (approved : RwMap Bytes (Unit {0}) text_key)
    (capabilities : RwMap Bytes Bool text_key) (ps : AdmissionControl) where
  abbrev N : Type 0
  N = Node states approved capabilities ps

  abbrev Sys : Type 0
  Sys = System states approved capabilities ps

  abbrev Covered : N → Granted → Type 0
  Covered n g = IsCovered states approved capabilities ps n g

  call-IsCovered :
      (n : N) (g : Granted) (now : ℕ) (c : Call)
      → backs g c ≡ true
      → Covered n g
      → Covered (call states approved capabilities ps n now c) g
  unfolding call
  call-IsCovered n g now (put_state p s) b h = record {
    admits = h.admits;
    cached = h.cached;
    listed = h.listed;
    valid = λ later q. ground (
      arith,
      b,
      h.valid later q,
      is_granted-same g p q,
      states.get-put n.peers_map now p s later q,
    );
  }
  call-IsCovered n g now (delete_state p) b h = record {
    admits = h.admits;
    cached = h.cached;
    listed = h.listed;
    valid = λ later q. ground (arith, h.valid later q, states.get-delete n.peers_map p later q);
  }
  call-IsCovered n g now (approve p) b h = record {
    admits = h.admits;
    cached = h.cached;
    listed = λ q. ground (
      arith,
      b,
      h.listed q,
      is_granted-same g p q,
      approved.load-store n.peers_approved_map p tt q,
    );
    valid = h.valid;
  }
  call-IsCovered n g now (disapprove p) b h = record {
    admits = h.admits;
    cached = h.cached;
    listed = λ q. ground (arith, h.listed q, approved.load-delete n.peers_approved_map p q);
    valid = h.valid;
  }
  call-IsCovered n g now (cache p c) b h = record {
    admits = h.admits;
    cached = λ q.
        rw (capabilities.load-store n.peer_capabilities p c q)
          (stored-covers g p q (some c) _ b (h.cached q));
    listed = h.listed;
    valid = h.valid;
  }
  call-IsCovered n g now (forget p) b h = record {
    admits = h.admits;
    cached = λ q.
        rw (capabilities.load-delete n.peer_capabilities p q)
          (stored-covers g p q none _ refl (h.cached q));
    listed = h.listed;
    valid = h.valid;
  }
  call-IsCovered n g now (allow_with_capability p c) b h = record {
    admits =
        λ q. rw (ps.admitted-allow n.pubsub p c q) (stored-covers g p q (some c) _ b (h.admits q));
    cached = h.cached;
    listed = h.listed;
    valid = h.valid;
  }
  call-IsCovered n g now (deny p) b h = record {
    admits = λ q. rw (ps.admitted-deny n.pubsub p q) (stored-covers g p q none _ refl (h.admits q));
    cached = h.cached;
    listed = h.listed;
    valid = h.valid;
  }

  IsCovered-Grows : (n : N) (g g' : Granted) → Grows g g' → Covered n g → Covered n g'
  IsCovered-Grows n g g' w h = record {
    admits = λ p. covers-Grows g g' p _ w (h.admits p);
    cached = λ p. covers-Grows g g' p _ w (h.cached p);
    listed = λ p. ground (arith, w p, h.listed p);
    valid = λ now p. ground (arith, w p, h.valid now p);
  }

  -- The node is covered, and no goroutine will make a call that is not.
  abbrev IsSound : Sys → Type 0
  IsSound s = Covered s.node s.granted × Each (IsSafe s.granted) s.threads

  take_turn-IsSound :
      (t : Turn) (s : Sys) (i : ℕ) (th : Thread)
      → IsSafe s.granted th
      → IsSound s
      → IsSound (take_turn states approved capabilities ps t s i th)
  unfolding take_turn get_peer_state
  take_turn-IsSound t s i finished k h = h
  take_turn-IsSound t s i (calls c next) k h = (
    call-IsCovered s.node s.granted t.now c k.0 h.0,
    replace_at-Each s.granted i next s.threads k.1 h.1,
  )
  take_turn-IsSound t s i (reads_state p next) k h = (
    h.0,
    replace_at-Each s.granted i _ s.threads
        (k s.granted (Grows-refl s.granted) _ (h.0.valid t.now p)) h.1,
  )
  take_turn-IsSound t s i (reads_capability p next) k h = (
    h.0,
    replace_at-Each s.granted i _ s.threads (k s.granted (Grows-refl s.granted) _ (h.0.cached p))
        h.1,
  )
  take_turn-IsSound t s i (verifies p next) k h =
      let grown = Grows-add_grant s.granted p t.answer in
      (
        IsCovered-Grows s.node s.granted _ grown h.0,
        replace_at-Each _ i _ s.threads (k s.granted (Grows-refl s.granted) t.answer)
            (Each-Grows s.granted _ s.threads grown h.1),
      )
  take_turn-IsSound t s i (tries next) k h =
      (h.0, replace_at-Each s.granted i _ s.threads (k t.succeeds) h.1)

  step-IsSound :
      (s : Sys) (e : Event) → IsSound s → IsSound (step states approved capabilities ps s e)
  unfolding step peer_disconnected
  step-IsSound s (handshakes p) h = (h.0, (handle_handshake-IsSafe s.granted p, h.1))
  step-IsSound s (connects p outbound ticks) h =
      (h.0, (handle_new_connection-IsSafe s.granted p outbound ticks, h.1))
  step-IsSound s (turns i t) h =
      take_turn-IsSound t s i (thread_at i s.threads) (thread_at-Each s.granted i s.threads h.1) h
  step-IsSound s (disconnects p) h = (
    record {
      admits = λ q.
          rw (ps.admitted-disconnected s.node.pubsub p q)
            (stored-covers s.granted p q none _ refl (h.0.admits q));
      cached = h.0.cached;
      listed = h.0.listed;
      valid = h.0.valid;
    },
    h.1,
  )

  run-IsSound :
      (s : Sys) (events : List Event)
      → IsSound s
      → IsSound (run states approved capabilities ps s events)
  unfolding run
  run-IsSound s [] h = h
  run-IsSound s (e ∷ es) h =
      run-IsSound (step states approved capabilities ps s e) es (step-IsSound s e h)

  new-IsSound : IsSound (new_system states approved capabilities ps)
  unfolding new_system new_node
  new-IsSound = (
    record {
      admits = λ p. ground (arith, ps.admitted_new p);
      cached = λ p. ground (arith, capabilities.load-empty p);
      listed = λ p. ground (arith, approved.load-empty p);
      valid = λ now p. ground (arith, states.get_empty now p);
    },
    tt,
  )

  -- However the goroutines of the handshakes and of the new connections interleave, from the node's
  -- start: a peer that the mesh admits, whose capability is cached, whose messages are let through,
  -- or that is marked as valid, had a handshake of its own verified before; and one that the mesh
  -- admits as a publisher, or whose cached capability is to publish, had one that granted publishing.
  pub run-IsCovered :
      (events : List Event)
      → (let s =
            run states approved capabilities ps
              (new_system states approved capabilities ps)
              events in
          IsCovered states approved capabilities ps s.node s.granted)
  run-IsCovered events =
      (run-IsSound (new_system states approved capabilities ps) events new-IsSound).0
