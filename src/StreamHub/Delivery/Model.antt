-- ===== src/StreamHub/Delivery/Model.antt =====
-- One subscriber's view of the hub of pkg/service/streamhub, and what an emit does to it.
use mathlib.Core.List.{append_assoc}
use optimum_gateway.Base.{
  ℕ, ◌+◌, ◌≤◌, ◌≡◌, refl, sym, ap, ◌∙◌, subst, arith, Bool, false, none, some, List, [], ◌∷◌, ◌++◌,
  if◌then◌else◌, ◌==◌, ltb, length, length-append, Bool-cases, Option-cases, inl, inr, ==_iff,
}
use optimum_gateway.Base.Maps.{RwMap, nat_key}
use optimum_gateway.StreamHub.{
  BlockEvent, Broadcaster, Hub, subscribe, emit, close, receive, count_drops, drops_of, refuses,
  offer, offer_to,
}

-- Some of the items of a list, in their order, read from the end.
pub data IsPart {A : Type 0} : List A → List A → Type 0 where
  none_yet : IsPart [] []
  keeps : (x : A) {xs ys : List A} → IsPart xs ys → IsPart (xs ++ (x ∷ [])) (ys ++ (x ∷ []))
  skips : (y : A) {xs ys : List A} → IsPart xs ys → IsPart xs (ys ++ (y ∷ []))

-- What happens at the hub. A subscriber that finds nothing buffered waits.
pub data Event : Type 0 where
  emits : BlockEvent → Event
  receives : ℕ → Event
  subscribes : ℕ → ℕ → Event
  closes : ℕ → Event

-- An event that neither registers nor closes the key anew.
abbrev pub Spares : ℕ → Event → Type 0
Spares key (emits ev) = Unit
Spares key (receives j) = Unit
Spares key (subscribes j n) = (j == key) ≡ false
Spares key (closes j) = (j == key) ≡ false

module _ (bc : Broadcaster BlockEvent) (addresses : RwMap ℕ ℕ nat_key) where
  abbrev pub H : Type 0
  H = Hub bc addresses

  -- The hub, all that was emitted, and what the subscriber with the key received.
  pub record View : Type 0 where
    pub hub : H
    pub emitted : List BlockEvent
    pub received : List BlockEvent

  unfoldable pub step : ℕ → View → Event → View
  step key v (emits ev) = record v {
    hub = emit bc addresses v.hub ev;
    emitted = v.emitted ++ (ev ∷ []);
  }
  step key v (subscribes j n) = record v { hub = subscribe bc addresses v.hub j n }
  step key v (closes j) = record v { hub = close bc addresses v.hub j }
  step key v (receives j) = elim (bc.channel v.hub.listeners j) [
    | none ↦ v
    | some (n, q) ↦ elim q [
      | [] ↦ v
      | ev ∷ rest ↦ record v {
        hub = receive bc addresses v.hub j;
        received = (if j == key then v.received ++ (ev ∷ []) else v.received);
      }
    ]
  ]

  unfoldable pub run : ℕ → View → List Event → View
  unfolding step
  run key v [] = v
  run key v (e ∷ es) = run key (step key v e) es

  -- The subscriber with the key has a buffer within its bound; each event was received, is
  -- buffered or was counted as dropped, and the first two come in the order of the emits.
  pub record Accounts (key : ℕ) (v : View) : Type 0 where
    pub bound : ℕ
    pub queue : List BlockEvent
    pub open_channel : bc.channel v.hub.listeners key ≡ some (bound, queue)
    pub within : length queue ≤ bound
    pub all_counted : length v.received + length queue + v.hub.counters key ≡ length v.emitted
    pub in_order : IsPart (v.received ++ queue) v.emitted
    pub counted_at : addresses.load v.hub.dropped key ≡ some key
    pub own_counter : (j d : ℕ) → addresses.load v.hub.dropped j ≡ some d → d ≡ j

  -- The callback adds to a counter what the key is said to have dropped.
  count_drops-key :
      (dropped : addresses.Map) (key : ℕ) (drops : List (ℕ × ℕ)) (counters : ℕ → ℕ)
      → addresses.load dropped key ≡ some key
      → ((j d : ℕ) → addresses.load dropped j ≡ some d → d ≡ j)
      → count_drops bc addresses dropped drops counters key ≡ counters key + drops_of drops key
  unfolding count_drops
  count_drops-key dropped key [] counters at own = omega arith
  count_drops-key dropped key ((j, num) ∷ drops) counters at own =
      elim (Option-cases (addresses.load dropped j)) [
        | inl e ↦
            rw (e, count_drops-key dropped key drops counters at own) (rw (other j e) (omega arith))
        | inr (d, e) ↦
            rw
              (
                e,
                count_drops-key dropped key drops
                    (λ k. if k == d then counters k + num else counters k) at own,
              )
              (ground (arith, own j d e))
      ]
    where
      other : (j : ℕ) → addresses.load dropped j ≡ none → (j == key) ≡ false
      other j e = elim (Bool-cases (j == key)) [
        | inl y ↦ absurd (cc (sym e ∙ ap (addresses.load dropped) ((==_iff j key).0 y) ∙ at))
        | inr n ↦ n
      ]

  emit-counter :
      (h : H) (key bound : ℕ) (q : List BlockEvent) (ev : BlockEvent)
      → bc.channel h.listeners key ≡ some (bound, q)
      → addresses.load h.dropped key ≡ some key
      → ((j d : ℕ) → addresses.load h.dropped j ≡ some d → d ≡ j)
      → (emit bc addresses h ev).counters key
        ≡ h.counters key + (if ltb (length q) bound then 0 else 1)
  unfolding emit
  emit-counter h key bound q ev c at own =
      count_drops-key h.dropped key (bc.broadcast_try h.listeners ev).1 h.counters at own
      ∙ ap (λ n. h.counters key + n) (bc.drops-broadcast h.listeners ev key ∙ ap refuses c)

  emit-channel :
      (h : H) (key bound : ℕ) (q : List BlockEvent) (ev : BlockEvent)
      → bc.channel h.listeners key ≡ some (bound, q)
      → bc.channel (emit bc addresses h ev).listeners key ≡ some (offer ev (bound, q))
  unfolding emit
  emit-channel h key bound q ev c = bc.channel-broadcast h.listeners ev key ∙ ap (offer_to ev) c

  pub emit-Accounts :
      (key : ℕ) (v : View) (ev : BlockEvent) → Accounts key v → Accounts key (step key v (emits ev))
  unfolding step emit
  emit-Accounts key v ev a = elim (Bool-cases (ltb (length a.queue) a.bound)) [
    | inl room ↦ record {
      bound = a.bound;
      queue = a.queue ++ (ev ∷ []);
      open_channel = emit-channel v.hub key a.bound a.queue ev a.open_channel ∙ rw room refl;
      within = ground (arith, room, length-append a.queue (ev ∷ []));
      all_counted = omega (
        arith,
        a.all_counted,
        length-append a.queue (ev ∷ []),
        length-append v.emitted (ev ∷ []),
        counted room,
      );
      in_order =
          subst (λ xs. IsPart xs (v.emitted ++ (ev ∷ [])))
            (append_assoc v.received a.queue (ev ∷ [])) (keeps ev a.in_order);
      counted_at = a.counted_at;
      own_counter = a.own_counter;
    }
    | inr full ↦ record {
      bound = a.bound;
      queue = a.queue;
      open_channel = emit-channel v.hub key a.bound a.queue ev a.open_channel ∙ rw full refl;
      within = a.within;
      all_counted = omega (arith, a.all_counted, length-append v.emitted (ev ∷ []), counted full);
      in_order = skips ev a.in_order;
      counted_at = a.counted_at;
      own_counter = a.own_counter;
    }
  ]
    where
      counted :
          {b : Bool}
          → ltb (length a.queue) a.bound ≡ b
          → (emit bc addresses v.hub ev).counters key ≡ v.hub.counters key + (if b then 0 else 1)
      counted e =
          emit-counter v.hub key a.bound a.queue ev a.open_channel a.counted_at a.own_counter
          ∙ ap (λ b. v.hub.counters key + (if b then 0 else 1)) e
