-- ===== src/MumP2p/Tests.antt =====
-- The theorems on the mumP2P node over lists.
use optimum_gateway.Base.{
  ℕ, zero, suc, ◌≡◌, refl, ap, ◌∙◌, arith, Bool, true, false, Option, none, some, List, [], ◌∷◌,
  if◌then◌else◌, ◌⊎◌, ◌==◌, Each, ok, err, inl, inr, Bool-cases,
}
use optimum_gateway.Base.Wire.{Bytes}
use optimum_gateway.Base.Maps.{RwMap, assoc_map, assoc_load, assoc_delete, assoc_load-delete}
use optimum_gateway.Topics.TopicMeta.{text_key}
use optimum_gateway.Utils.Text.{codes, text_eq, trim_space, trim_left, is_space}
use optimum_gateway.Utils.Text.Laws.{text_eq_iff}
use optimum_gateway.Enrollment.Actions.{missing}
use optimum_gateway.Gateway.Handshake.{contains_text}
use optimum_gateway.MumP2p.Peers.{
  PeerState, StateMap, AdmissionControl, new_node, call, peer_disconnected, get_peer_state,
  handle_handshake, mark_handshake_valid, set_peer_state, handle_new_connection, disconnect_peer,
  readmit_capability, wait_handshake_valid,
}
use optimum_gateway.MumP2p.Admission.{run-IsCovered}
use optimum_gateway.MumP2p.Admission.Model.{
  Event, handshakes, connects, turns, disconnects, System, new_system, run, step, take_turn,
  IsCovered,
}
use optimum_gateway.MumP2p.Keeper.{
  Event as Change, adds, removes, starts, ends, cancels, run as run_keeper, step as step_keeper,
  add_topic, remove_topic, persist_starts, persist_ends, stop_starts, stop_ends, TopicSet,
  TextsJson, Keeper, new_keeper, load_data,
}
use optimum_gateway.MumP2p.Keeper.Restart.{Restores, run-Restores}
use optimum_gateway.MumP2p.Subscriptions.{run-IsPaired, unsubscribe_topic-stuck}
use optimum_gateway.MumP2p.Subscriptions.Model.{
  Event as Use, subscribes, unsubscribes, publishes, run as run_topics, Subscriptions,
  subscribe_topic, unsubscribe_topic, IsPaired, close_failed, has_subscription,
}

abbrev states : StateMap
states = record {
  Map = List (Bytes × PeerState);
  empty = [];
  get = λ m now p. assoc_load text_key m p;
  put = λ m at p s. (p, s) ∷ m;
  delete = λ m p. assoc_delete text_key m p;
  get_empty = λ now p. refl;
  get-put = λ m at p s now q. inl refl;
  get-delete = λ m p now q. assoc_load-delete text_key m p q;
}

abbrev pubsub : AdmissionControl
pubsub = record {
  State = List (Bytes × Bool);
  new = [];
  admitted = λ s p. assoc_load text_key s p;
  allow_peer_with_capability = λ s p c. (p, c) ∷ s;
  deny_peer = λ s p. assoc_delete text_key s p;
  disconnected = λ s p. assoc_delete text_key s p;
  admitted_new = λ q. refl;
  admitted-allow = λ s p c q. refl;
  admitted-deny = λ s p q. assoc_load-delete text_key s p q;
  admitted-disconnected = λ s p q. assoc_load-delete text_key s p q;
}

abbrev approved : RwMap Bytes (Unit {0}) text_key
approved = assoc_map Bytes (Unit {0}) text_key

abbrev capabilities : RwMap Bytes Bool text_key
capabilities = assoc_map Bytes Bool text_key

abbrev turns_of : ℕ → ℕ → Option Bool → List Event → List Event
turns_of zero i answer rest = rest
turns_of (suc n) i answer rest =
    turns i (record { now = 1; succeeds = true; answer = answer }) ∷ turns_of n i answer rest

abbrev after : List Event → System states approved capabilities pubsub
after events =
    run states approved capabilities pubsub (new_system states approved capabilities pubsub) events

-- A reader's handshake, its disconnect, and its return, which readmits it as a reader.
abbrev events : List Event
events =
    handshakes (codes "r")
    ∷ turns_of 7 0 (some false)
        (disconnects (codes "r") ∷ connects (codes "r") false 3 ∷ turns_of 3 0 (some true) [])

run-IsCovered_example :
    IsCovered states approved capabilities pubsub (after events).node (after events).granted
run-IsCovered_example = run-IsCovered states approved capabilities pubsub events

readmitted-as_reader : pubsub.admitted (after events).node.pubsub (codes "r") ≡ some false
unfolding run step take_turn new_system new_node handle_handshake mark_handshake_valid
    set_peer_state call peer_disconnected handle_new_connection readmit_capability get_peer_state
    text_eq disconnect_peer
readmitted-as_reader = refl

-- An inbound connection whose wait ends just before its handshake is done: the peer is refused, and
-- the goroutine of the handshake then admits it all the same.
abbrev race : List Event
race =
    connects (codes "r") false 0
    ∷ handshakes (codes "r")
    ∷ turns_of 1 1 none (turns_of 5 0 (some true) (turns_of 5 1 none (turns_of 1 0 none [])))

refused-admitted :
    (pubsub.admitted (after race).node.pubsub (codes "r") ≡ some true)
    × (states.get (after race).node.peers_map 1 (codes "r") ≡ none)
unfolding run step take_turn new_system new_node handle_handshake mark_handshake_valid
    set_peer_state call handle_new_connection wait_handshake_valid get_peer_state text_eq
    disconnect_peer
refused-admitted = (refl, refl)

abbrev remove_all : List Bytes → Bytes → List Bytes
remove_all [] t = []
remove_all (k ∷ ks) t = let rest = remove_all ks t in if text_eq k t then rest else k ∷ rest

remove_all-has :
    (ks : List Bytes) (k t : Bytes)
    → contains_text (remove_all ks k) t ≡ (if text_eq k t then false else contains_text ks t)
remove_all-has [] k t = ground arith
remove_all-has (j ∷ ks) k t = elim (Bool-cases (text_eq j k)) [
  | inl y ↦ ground (arith, y, remove_all-has ks k t, ap (λ x. text_eq x t) ((text_eq_iff j k).0 y))
  | inr n ↦ elim (Bool-cases (text_eq k t)) [
    | inl y ↦ ground (arith, n, y, remove_all-has ks k t, ap (text_eq j) ((text_eq_iff k t).0 y))
    | inr m ↦ ground (arith, n, m, remove_all-has ks k t)
  ]
]

put-has :
    (s : List Bytes) (k t : Bytes)
    → contains_text (k ∷ s) t ≡ (if text_eq k t then true else contains_text s t)
put-has s k t = ground arith

abbrev sets : TopicSet
sets = record {
  Set = List Bytes;
  empty = [];
  has = contains_text;
  put = λ s k. k ∷ s;
  delete = remove_all;
  keys = λ s. s;
  has_empty = λ t. refl;
  has-put = put-has;
  has-delete = remove_all-has;
  contains-keys = λ s t. refl;
}

abbrev shift : Bytes → Bytes → Bytes
shift [] rest = 0 ∷ rest
shift (b ∷ bs) rest = suc b ∷ shift bs rest

abbrev print_texts : List Bytes → Bytes
print_texts [] = []
print_texts (t ∷ ts) = shift t (print_texts ts)

abbrev push : ℕ → List Bytes → List Bytes
push b [] = []
push b (t ∷ ts) = (b ∷ t) ∷ ts

abbrev parse_texts : Bytes → List Bytes
parse_texts [] = []
parse_texts (zero ∷ bs) = [] ∷ parse_texts bs
parse_texts (suc b ∷ bs) = push b (parse_texts bs)

parse-shift : (t rest : Bytes) → parse_texts (shift t rest) ≡ t ∷ parse_texts rest
parse-shift [] rest = refl
parse-shift (b ∷ t) rest = ap (push b) (parse-shift t rest)

parse-print : (ts : List Bytes) → some (parse_texts (print_texts ts)) ≡ some ts
parse-print [] = refl
parse-print (t ∷ ts) =
    ap some (parse-shift t (print_texts ts)) ∙ ap (λ o. some (t ∷ o)) (cc (parse-print ts))

all_texts : (ts : List Bytes) → Each (λ t. true ≡ true) ts
all_texts [] = tt
all_texts (t ∷ ts) = (refl, all_texts ts)

abbrev json : TextsJson
json = record {
  is_text = λ t. true;
  marshal = print_texts;
  unmarshal = λ b. some (parse_texts b);
  unmarshal-marshal = λ ts h. parse-print ts;
  unmarshal-is_text = λ b ts e. all_texts ts;
}

abbrev changes : List (Change sets json)
changes =
    adds (codes "a")
    ∷ starts
    ∷ adds (codes "b")
    ∷ ends true
    ∷ removes (codes "a")
    ∷ starts
    ∷ ends true
    ∷ cancels
    ∷ adds (codes "c")
    ∷ []

abbrev kept : Keeper sets json
kept = run_keeper sets json (new_keeper sets json missing (false ∷ [])) changes

run-Restores_example :
    (Restores sets json kept.file kept.topics_map
      ⊎ (((kept.queued == 0) ≡ false) ⊎ (kept.cancelled ≡ true)))
    × Restores sets json
        (stop_ends sets json (stop_starts sets json kept) true).file
        kept.topics_map
unfolding new_keeper load_data run_keeper step_keeper add_topic remove_topic persist_starts
    persist_ends text_eq
run-Restores_example =
    run-Restores sets json missing (false ∷ []) changes
      (refl, (tt, (refl, (refl, (tt, (tt, (refl, (tt, (refl, tt))))))))) refl

abbrev joined : Subscriptions sets json approved
joined = record {
  topics = (codes "a", tt) ∷ [];
  subscriptions = (codes "a", tt) ∷ [];
  keeper = record (new_keeper sets json missing []) { topics_map = codes "a" ∷ [] };
}

joined-IsPaired : IsPaired sets json approved joined
joined-IsPaired = record { paired = λ t. refl; kept = λ t. ground arith }

abbrev uses : List (Use sets json approved)
uses =
    subscribes (codes "b") true true
    ∷ unsubscribes (codes "a") true
    ∷ publishes (codes "c") true false true
    ∷ []

run-IsPaired_example : IsPaired sets json approved (run_topics sets json approved joined uses)
run-IsPaired_example =
    run-IsPaired sets json approved joined uses joined-IsPaired (tt, (refl, (tt, tt)))

unsubscribe_topic-stuck_example :
    (let failed = (unsubscribe_topic sets json approved joined (codes "a") false).0 in
      ((unsubscribe_topic sets json approved joined (codes "a") false).1 ≡ err close_failed)
      × (subscribe_topic sets json approved failed (codes "a") true true ≡ (failed, ok tt))
      × (has_subscription sets json approved failed (codes "a") ≡ false))
unfolding text_eq trim_space trim_left is_space
unsubscribe_topic-stuck_example =
    unsubscribe_topic-stuck sets json approved joined (codes "a") true true refl refl
