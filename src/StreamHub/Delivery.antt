-- ===== src/StreamHub/Delivery.antt =====
-- One subscriber's view of the hub, whatever the hub and the other subscribers do.
pub mod Model
use mathlib.Core.List.{append_assoc}
use optimum_gateway.Base.{
  ℕ, ◌+◌, ◌≤◌, ◌≡◌, refl, sym, ap, ◌∙◌, subst, arith, Bool, false, Option, none, some, List, [],
  ◌∷◌, ◌++◌, if◌then◌else◌, ◌==◌, ltb, length, length-append, Each, Bool-cases, Option-cases, inl,
  inr, ==_iff, ==_refl,
}
use optimum_gateway.Base.Maps.{RwMap, nat_key}
use optimum_gateway.StreamHub.{
  BlockEvent, Broadcaster, Hub, subscribe, emit, close, receive, count_drops, drops_of, refuses,
  offer, offer_to,
}
use optimum_gateway.StreamHub.Delivery.Model.{
  IsPart, none_yet, keeps, skips, Event, emits, receives, subscribes, closes, Spares, H, View, step,
  run, Accounts, emit-Accounts,
}

module _ (bc : Broadcaster BlockEvent) (addresses : RwMap ℕ ℕ nat_key) where
  subscribe-Accounts :
      (key : ℕ) (v : View bc addresses) (j n : ℕ)
      → (j == key) ≡ false
      → Accounts bc addresses key v
      → Accounts bc addresses key (step bc addresses key v (subscribes j n))
  unfolding step subscribe
  subscribe-Accounts key v j n ne a = record {
    bound = a.bound;
    queue = a.queue;
    open_channel = bc.channel-register v.hub.listeners j _ key ∙ rw ne a.open_channel;
    within = a.within;
    all_counted = ground (arith, a.all_counted, ne);
    in_order = a.in_order;
    counted_at = addresses.load-store v.hub.dropped j j key ∙ rw ne a.counted_at;
    own_counter = λ i d e. own_stored i d (sym (addresses.load-store v.hub.dropped j j i) ∙ e);
  }
    where
      own_stored :
          (i d : ℕ) → (if j == i then some j else addresses.load v.hub.dropped i) ≡ some d → d ≡ i
      own_stored i d e = elim (Bool-cases (j == i)) [
        | inl y ↦ ground (arith, y, e)
        | inr n' ↦ a.own_counter i d (rw n' at e)
      ]

  close-Accounts :
      (key : ℕ) (v : View bc addresses) (j : ℕ)
      → (j == key) ≡ false
      → Accounts bc addresses key v
      → Accounts bc addresses key (step bc addresses key v (closes j))
  unfolding step close
  close-Accounts key v j ne a = record {
    bound = a.bound;
    queue = a.queue;
    open_channel = bc.channel-unregister v.hub.listeners j key ∙ rw ne a.open_channel;
    within = a.within;
    all_counted = a.all_counted;
    in_order = a.in_order;
    counted_at = addresses.load-delete v.hub.dropped j key ∙ rw ne a.counted_at;
    own_counter = λ i d e. own_deleted i d (sym (addresses.load-delete v.hub.dropped j i) ∙ e);
  }
    where
      own_deleted :
          (i d : ℕ) → (if j == i then none else addresses.load v.hub.dropped i) ≡ some d → d ≡ i
      own_deleted i d e = elim (Bool-cases (j == i)) [
        | inl y ↦ absurd (cc (rw y at e))
        | inr n' ↦ a.own_counter i d (rw n' at e)
      ]

  receive-Accounts :
      (key : ℕ) (v : View bc addresses) (j : ℕ)
      → Accounts bc addresses key v
      → Accounts bc addresses key (step bc addresses key v (receives j))
  unfolding step receive
  receive-Accounts key v j a = by_channel (bc.channel v.hub.listeners j) refl
    where
      by_channel :
          (c : Option (ℕ × List BlockEvent))
          → bc.channel v.hub.listeners j ≡ c
          → Accounts bc addresses key (step bc addresses key v (receives j))
      by_channel none e = rw (step, e) a
      by_channel (some (n, [])) e = rw (step, e) a
      by_channel (some (n, ev ∷ q)) e = elim (Bool-cases (j == key)) [
        | inr other ↦
            rw (step, e, other)
              (record {
                bound = a.bound;
                queue = a.queue;
                open_channel =
                    bc.channel-receive v.hub.listeners j key n ev q e ∙ rw other a.open_channel;
                within = a.within;
                all_counted = a.all_counted;
                in_order = a.in_order;
                counted_at = a.counted_at;
                own_counter = a.own_counter;
              })
        | inl own ↦
            let here : some (a.bound, a.queue) ≡ some (n, ev ∷ q) =
              sym a.open_channel
              ∙ ap (bc.channel v.hub.listeners) (sym ((==_iff j key).0 own))
              ∙ e in
            let head : a.queue ≡ ev ∷ q = cc (here) in
            let bounds : a.bound ≡ n = cc (here) in
            rw (step, e, own)
              (record {
                bound = n;
                queue = q;
                open_channel = bc.channel-receive v.hub.listeners j key n ev q e ∙ rw own refl;
                within = omega (arith, a.within, bounds, ap length head);
                all_counted =
                    omega
                      (arith, a.all_counted, ap length head, length-append v.received (ev ∷ []));
                in_order =
                    subst (λ xs. IsPart xs v.emitted)
                      (ap (λ xs. v.received ++ xs) head ∙ sym (append_assoc v.received (ev ∷ []) q))
                      a.in_order;
                counted_at = a.counted_at;
                own_counter = a.own_counter;
              })
      ]

  step-Accounts :
      (key : ℕ) (v : View bc addresses) (e : Event)
      → Spares key e
      → Accounts bc addresses key v
      → Accounts bc addresses key (step bc addresses key v e)
  step-Accounts key v (emits ev) h a = emit-Accounts bc addresses key v ev a
  step-Accounts key v (receives j) h a = receive-Accounts key v j a
  step-Accounts key v (subscribes j n) h a = subscribe-Accounts key v j n h a
  step-Accounts key v (closes j) h a = close-Accounts key v j h a

  -- Whatever is emitted, received and subscribed, as long as the subscriber is not closed: its
  -- buffer is within its bound, every event that was emitted was received, is buffered or was
  -- counted as dropped, and those received or buffered come in the order of the emits.
  pub run-Accounts :
      (key : ℕ) (v : View bc addresses) (events : List Event)
      → Each (Spares key) events
      → Accounts bc addresses key v
      → Accounts bc addresses key (run bc addresses key v events)
  unfolding run
  run-Accounts key v [] h a = a
  run-Accounts key v (e ∷ es) h a =
      run-Accounts key (step bc addresses key v e) es h.1 (step-Accounts key v e h.0 a)

  -- A subscriber that was just registered is at the start of such a run.
  pub subscribe-Accounts_new :
      (h : H bc addresses) (key buf_size : ℕ)
      → ((j d : ℕ) → addresses.load h.dropped j ≡ some d → d ≡ j)
      → Accounts bc addresses key
          (record { hub = subscribe bc addresses h key buf_size; emitted = []; received = [] })
  unfolding subscribe
  subscribe-Accounts_new h key buf_size own = record {
    bound = (if buf_size == 0 then 64 else buf_size);
    queue = [];
    open_channel = bc.channel-register h.listeners key _ key ∙ rw (==_refl key) refl;
    within = omega arith;
    all_counted = rw (==_refl key) (omega arith);
    in_order = none_yet;
    counted_at = addresses.load-store h.dropped key key key ∙ rw (==_refl key) refl;
    own_counter = λ i d e. own_stored i d (sym (addresses.load-store h.dropped key key i) ∙ e);
  }
    where
      own_stored :
          (i d : ℕ) → (if key == i then some key else addresses.load h.dropped i) ≡ some d → d ≡ i
      own_stored i d e = elim (Bool-cases (key == i)) [
        | inl y ↦ ground (arith, y, e)
        | inr n ↦ own i d (rw n at e)
      ]
