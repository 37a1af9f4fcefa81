-- ===== src/MumP2p/Admission/Threads.antt =====
-- What each goroutine of pkg/service/mum_p2p/handshake.go may rely on, whatever the others do in
-- between: handshakes that were verified stay verified.
use optimum_gateway.Base.{
  ℕ, zero, suc, ◌≡◌, refl, Bool, true, false, not, ◌||◌, Option, none, some, arith, if◌then◌else◌,
  inl, inr, Bool-cases,
}
use optimum_gateway.Base.Wire.{Bytes}
use optimum_gateway.Utils.Text.Laws.{text_eq_iff}
use optimum_gateway.MumP2p.Peers.{
  PeerState, handshake_valid, handshake_invalid, Call, put_state, delete_state, approve, disapprove,
  cache, forget, allow_with_capability, deny, Thread, finished, calls, reads_state,
  reads_capability, verifies, tries, set_peer_state, mark_handshake_valid, readmit_capability,
  disconnect_peer, handle_handshake, send_handshake_for_peer, wait_handshake_valid,
  handle_new_connection, is_valid_state,
}
use optimum_gateway.MumP2p.Admission.Model.{Granted, add_grant, is_granted, may_publish, covers}

-- A call is one that the handshakes so far allow.
abbrev pub backs : Granted → Call → Bool
backs g (put_state p s) = not (is_valid_state (some s)) || is_granted g p
backs g (delete_state p) = true
backs g (approve p) = is_granted g p
backs g (disapprove p) = true
backs g (cache p c) = covers g p (some c)
backs g (forget p) = true
backs g (allow_with_capability p c) = covers g p (some c)
backs g (deny p) = true

abbrev pub Grows : Granted → Granted → Type 0
Grows g g' =
    (p : Bytes)
    → ((not (is_granted g p) || is_granted g' p) ≡ true)
      × ((not (may_publish g p) || may_publish g' p) ≡ true)

-- All calls that a goroutine still makes are allowed when it makes them.
abbrev pub IsSafe : Granted → Thread → Type 0
IsSafe g finished = Unit
IsSafe g (calls c next) = (backs g c ≡ true) × IsSafe g next
IsSafe g (reads_state p next) =
    (g' : Granted)
    → Grows g g'
    → (o : Option PeerState) → (not (is_valid_state o) || is_granted g' p) ≡ true
    → IsSafe g' (next o)
IsSafe g (reads_capability p next) =
    (g' : Granted) → Grows g g' → (o : Option Bool) → covers g' p o ≡ true → IsSafe g' (next o)
IsSafe g (verifies p next) =
    (g' : Granted) → Grows g g' → (o : Option Bool) → IsSafe (add_grant g' p o) (next o)
IsSafe g (tries next) = (b : Bool) → IsSafe g (next b)

pub Grows-refl : (g : Granted) → Grows g g
Grows-refl g p = (ground arith, ground arith)

pub Grows-trans : (g g' g'' : Granted) → Grows g g' → Grows g' g'' → Grows g g''
Grows-trans g g' g'' a b p = (ground (arith, a p, b p), ground (arith, a p, b p))

pub Grows-add_grant : (g : Granted) (q : Bytes) (o : Option Bool) → Grows g (add_grant g q o)
Grows-add_grant g q none p = Grows-refl g p
Grows-add_grant g q (some c) p = (ground arith, ground arith)

pub covers-Grows :
    (g g' : Granted) (p : Bytes) (o : Option Bool)
    → Grows g g'
    → covers g p o ≡ true
    → covers g' p o ≡ true
covers-Grows g g' p none w h = refl
covers-Grows g g' p (some c) w h = ground (arith, w p, h)

backs-Grows : (g g' : Granted) (c : Call) → Grows g g' → backs g c ≡ true → backs g' c ≡ true
backs-Grows g g' (put_state p handshake_valid) w h = ground (arith, w p, h)
backs-Grows g g' (put_state p handshake_invalid) w h = refl
backs-Grows g g' (delete_state p) w h = refl
backs-Grows g g' (approve p) w h = ground (arith, w p, h)
backs-Grows g g' (disapprove p) w h = refl
backs-Grows g g' (cache p c) w h = covers-Grows g g' p (some c) w h
backs-Grows g g' (forget p) w h = refl
backs-Grows g g' (allow_with_capability p c) w h = covers-Grows g g' p (some c) w h
backs-Grows g g' (deny p) w h = refl

pub IsSafe-Grows : (g g' : Granted) (th : Thread) → Grows g g' → IsSafe g th → IsSafe g' th
IsSafe-Grows g g' finished w h = tt
IsSafe-Grows g g' (calls c next) w h = (backs-Grows g g' c w h.0, IsSafe-Grows g g' next w h.1)
IsSafe-Grows g g' (reads_state p next) w h = λ x v. h x (Grows-trans g g' x w v)
IsSafe-Grows g g' (reads_capability p next) w h = λ x v. h x (Grows-trans g g' x w v)
IsSafe-Grows g g' (verifies p next) w h = λ x v. h x (Grows-trans g g' x w v)
IsSafe-Grows g g' (tries next) w h = λ b. IsSafe-Grows g g' (next b) w (h b)

-- What follows is safe for each answer, however far the handshakes have grown by then.
abbrev AreSafe : Granted → (Bool → Thread) → Type 0
AreSafe g next = (g' : Granted) → Grows g g' → (b : Bool) → IsSafe g' (next b)

added-covers :
    (g : Granted) (p : Bytes) (c : Bool) → covers (add_grant g p (some c)) p (some c) ≡ true
added-covers g p c = ground (arith, (text_eq_iff p p).1 refl)

disconnect_peer-IsSafe :
    (g : Granted) (p : Bytes) (next : Thread) → IsSafe g next → IsSafe g (disconnect_peer p next)
unfolding disconnect_peer set_peer_state
disconnect_peer-IsSafe g p next h = (refl, (refl, (refl, (refl, (refl, h)))))

mark_handshake_valid-IsSafe :
    (g : Granted) (p : Bytes) (c : Bool) (next : Thread)
    → covers g p (some c) ≡ true
    → IsSafe g next
    → IsSafe g (mark_handshake_valid p c next)
unfolding mark_handshake_valid set_peer_state
mark_handshake_valid-IsSafe g p c next k h = (ground (arith, k), (ground (arith, k), (k, (k, h))))

if-IsSafe :
    (g : Granted) (b : Bool) (left right : Thread)
    → IsSafe g left
    → IsSafe g right
    → IsSafe g (if b then left else right)
if-IsSafe g true left right l r = l
if-IsSafe g false left right l r = r

pub handle_handshake-IsSafe : (g : Granted) (p : Bytes) → IsSafe g (handle_handshake p)
unfolding handle_handshake
handle_handshake-IsSafe g p = λ x w o. by_answer x o
  where
    by_answer :
        (x : Granted) (o : Option Bool)
        → IsSafe (add_grant x p o) (elim o as (λ y. Thread) [
          | none ↦ disconnect_peer p finished
          | some capability ↦ tries (λ replied.
              if replied
              then mark_handshake_valid p capability finished
              else disconnect_peer p finished)
        ])
    by_answer x none = disconnect_peer-IsSafe x p finished tt
    by_answer x (some c) = λ replied.
        if-IsSafe (add_grant x p (some c)) replied _ _
          (mark_handshake_valid-IsSafe (add_grant x p (some c)) p c finished (added-covers x p c)
            tt)
          (disconnect_peer-IsSafe (add_grant x p (some c)) p finished tt)

send_handshake_for_peer-IsSafe :
    (g : Granted) (p : Bytes) (next : Bool → Thread)
    → AreSafe g next
    → IsSafe g (send_handshake_for_peer p next)
unfolding send_handshake_for_peer
send_handshake_for_peer-IsSafe g p next h =
    let failed = h g (Grows-refl g) false in
    let refused = disconnect_peer-IsSafe g p (next false) failed in
    λ opened. if-IsSafe g (not opened) _ _ failed (λ encoded.
      if-IsSafe g (not encoded) _ _ refused
        (λ closed. if-IsSafe g (not closed) _ _ refused (λ x w o. by_answer x w o)))
  where
    by_answer :
        (x : Granted)
        → Grows g x
        → (o : Option Bool)
        → IsSafe (add_grant x p o) (elim o as (λ y. Thread) [
          | none ↦ disconnect_peer p (next false)
          | some capability ↦ mark_handshake_valid p capability (next true)
        ])
    by_answer x w none = disconnect_peer-IsSafe x p (next false) (h x w false)
    by_answer x w (some c) =
        mark_handshake_valid-IsSafe (add_grant x p (some c)) p c (next true) (added-covers x p c) (
          h (add_grant x p (some c))
            (Grows-trans g x (add_grant x p (some c)) w (Grows-add_grant x p (some c))) true)

wait_handshake_valid-IsSafe :
    (g : Granted) (ticks : ℕ) (p : Bytes) (next : Bool → Thread)
    → AreSafe g next
    → IsSafe g (wait_handshake_valid ticks p next)
unfolding wait_handshake_valid
wait_handshake_valid-IsSafe g zero p next h = h g (Grows-refl g) false
wait_handshake_valid-IsSafe g (suc ticks) p next h = λ x w o k.
    elim (Bool-cases (is_valid_state o)) [
      | inl y ↦ rw y (h x w true)
      | inr n ↦
          rw n
            (wait_handshake_valid-IsSafe x ticks p next (λ x' w'. h x' (Grows-trans g x x' w w')))
    ]

-- A peer with a valid handshake is readmitted with what was cached, or else as a reader.
readmitted :
    (x : Granted) (p : Bytes)
    → (not true || is_granted x p) ≡ true
    → IsSafe x
        (readmit_capability p (λ capability. calls (allow_with_capability p capability) finished))
unfolding readmit_capability
readmitted x p k y v none c = (ground (arith, k, v p), tt)
readmitted x p k y v (some d) c = (c, tt)

on_result-IsSafe :
    (g : Granted) (p : Bytes)
    → AreSafe g (λ succeeded. if succeeded then finished else disconnect_peer p finished)
on_result-IsSafe g p x w true = tt
on_result-IsSafe g p x w false = disconnect_peer-IsSafe x p finished tt

pub handle_new_connection-IsSafe :
    (g : Granted) (p : Bytes) (outbound : Bool) (ticks : ℕ)
    → IsSafe g (handle_new_connection p outbound ticks)
unfolding handle_new_connection readmit_capability
handle_new_connection-IsSafe g p outbound ticks x w none k =
    if-IsSafe x outbound _ _ (send_handshake_for_peer-IsSafe x p _ (on_result-IsSafe x p))
      (wait_handshake_valid-IsSafe x ticks p _ (on_result-IsSafe x p))
handle_new_connection-IsSafe g p outbound ticks x w (some handshake_invalid) k =
    disconnect_peer-IsSafe x p finished tt
handle_new_connection-IsSafe g p outbound ticks x w (some handshake_valid) k = readmitted x p k
