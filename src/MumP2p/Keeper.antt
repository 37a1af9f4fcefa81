-- ===== src/MumP2p/Keeper.antt =====
-- pkg/service/mum_p2p/topics_keeper/service.go: the subscribed topics, kept in a file. The map of
-- optimum-common, the JSON of a list of texts and the file system are parameters; the channel to the
-- `persist` loop holds 100 texts, of which only their number matters. A dump reads the topics at one
-- time and its write ends later, in the loop and in `Stop`.
pub mod Restart
use optimum_gateway.Base.{
  ℕ, ◌+◌, ◌-◌, ◌≡◌, refl, ap, subst, arith, Bool, true, false, not, ◌&&◌, ◌||◌, Option, none, some,
  List, [], ◌∷◌, if◌then◌else◌, drop, ltb, ◌==◌, Each, Bool-cases, inl, inr, ==_iff,
}
use optimum_gateway.Base.Wire.{Bytes}
use optimum_gateway.Forks.{is_empty}
use optimum_gateway.Utils.Text.{text_eq, trim_space}
use optimum_gateway.Utils.Text.Laws.{text_eq_iff}
use optimum_gateway.Enrollment.Actions.{File, missing, unreadable, holds}
use optimum_gateway.Gateway.Handshake.{contains_text}

-- `syncx.RWMap[string, struct{}]`; its keys come in some order.
pub record TopicSet : Type 1 where
  pub Set : Type 0
  pub empty : Set
  pub has : Set → Bytes → Bool
  pub put : Set → Bytes → Set
  pub delete : Set → Bytes → Set
  pub keys : Set → List Bytes
  pub has_empty : (t : Bytes) → has empty t ≡ false
  pub has-put : (s : Set) (k t : Bytes) → has (put s k) t ≡ (if text_eq k t then true else has s t)
  pub has-delete :
      (s : Set) (k t : Bytes) → has (delete s k) t ≡ (if text_eq k t then false else has s t)
  pub contains-keys : (s : Set) (t : Bytes) → contains_text (keys s) t ≡ has s t

-- `json.Marshal` and `json.Unmarshal` of a list of texts, with the test whether a text is valid
-- UTF-8: what is not is replaced by both, so that only valid texts are read back.
pub record TextsJson : Type 0 where
  pub is_text : Bytes → Bool
  pub marshal : List Bytes → Bytes
  pub unmarshal : Bytes → Option (List Bytes)
  pub unmarshal-marshal :
      (ts : List Bytes) → Each (λ t. is_text t ≡ true) ts → unmarshal (marshal ts) ≡ some ts
  pub unmarshal-is_text :
      (b : Bytes) (ts : List Bytes) → unmarshal b ≡ some ts → Each (λ t. is_text t ≡ true) ts

abbrev pub is_blank : Bytes → Bool
is_blank t = is_empty (trim_space t)

module _ (sets : TopicSet) (json : TextsJson) where
  -- `Service`: its topics, the number of texts in its channel, what its loop and what `Stop` are
  -- writing, whether its context is cancelled and its loop has returned, and the file. `draws` are
  -- the coming random choices of the selects where the context is cancelled and the channel has room:
  -- true takes the channel, also where none is left.
  pub record Keeper : Type 0 where
    pub topics_map : sets.Set
    pub queued : ℕ
    pub writing : Option Bytes
    pub stopping : Option Bytes
    pub cancelled : Bool
    pub returned : Bool
    pub draws : List Bool
    pub file : File

  abbrev pub store_all : List Bytes → sets.Set → sets.Set
  store_all [] s = s
  store_all (t ∷ ts) s = store_all ts (if is_blank t then s else sets.put s t)

  -- `loadData`
  unfoldable pub load_data : File → sets.Set
  load_data missing = sets.empty
  load_data unreadable = sets.empty
  load_data (holds bytes) = elim (json.unmarshal bytes) [
    | none ↦ sets.empty
    | some topics ↦ store_all topics sets.empty
  ]

  -- `NewService`
  unfoldable pub new_keeper : File → List Bool → Keeper
  unfolding load_data
  new_keeper f draws = record {
    topics_map = load_data f;
    queued = 0;
    writing = none;
    stopping = none;
    cancelled = false;
    returned = false;
    draws = draws;
    file = f;
  }

  abbrev takes_channel : List Bool → Bool
  takes_channel [] = true
  takes_channel (d ∷ ds) = d

  -- The select of `AddTopic` and of `RemoveTopic`.
  abbrev pub notify : Keeper → Keeper
  notify k =
      if not (ltb k.queued 100)
      then k
      else (if not k.cancelled then record k { queued = k.queued + 1 } else record k {
        queued = (if takes_channel k.draws then k.queued + 1 else k.queued);
        draws = drop 1 k.draws;
      })

  -- `AddTopic`
  unfoldable pub add_topic : Keeper → Bytes → Keeper
  add_topic k t = notify (record k { topics_map = sets.put k.topics_map t })

  -- `RemoveTopic`
  unfoldable pub remove_topic : Keeper → Bytes → Keeper
  remove_topic k t = notify (record k { topics_map = sets.delete k.topics_map t })

  -- What `DumpData` writes, of the topics when it reads them.
  unfoldable pub dump_data : Keeper → Bytes
  dump_data k = json.marshal (sets.keys k.topics_map)

  -- A round of `persist` that takes the channel, up to the write of its dump.
  unfoldable pub persist_starts : Keeper → Keeper
  unfolding dump_data
  persist_starts k = elim k.writing [
    | some bytes ↦ k
    | none ↦
        if k.returned || k.queued == 0
        then k
        else record k { queued = k.queued - 1; writing = some (dump_data k) }
  ]

  -- The end of that write.
  unfoldable pub persist_ends : Keeper → Bool → Keeper
  persist_ends k saved = elim k.writing [
    | none ↦ k
    | some bytes ↦ record k { writing = none; file = (if saved then holds bytes else k.file) }
  ]

  -- A round of `persist` that takes the cancelled context.
  unfoldable pub persist_returns : Keeper → Keeper
  persist_returns k = elim k.writing [
    | some bytes ↦ k
    | none ↦ if k.cancelled then record k { returned = true } else k
  ]

  -- `Stop` up to the write of its dump, and the end of that write.
  unfoldable pub stop_starts : Keeper → Keeper
  unfolding dump_data
  stop_starts k = record k { stopping = some (dump_data k) }

  unfoldable pub stop_ends : Keeper → Bool → Keeper
  stop_ends k saved = elim k.stopping [
    | none ↦ k
    | some bytes ↦ record k { stopping = none; file = (if saved then holds bytes else k.file) }
  ]

  pub data Event : Type 0 where
    adds removes : Bytes → Event
    starts returns cancels : Event
    ends : Bool → Event
    begins_stop : Event
    ends_stop : Bool → Event

  unfoldable pub step : Keeper → Event → Keeper
  step k (adds t) = add_topic k t
  step k (removes t) = remove_topic k t
  step k starts = persist_starts k
  step k returns = persist_returns k
  step k cancels = record k { cancelled = true }
  step k (ends saved) = persist_ends k saved
  step k begins_stop = stop_starts k
  step k (ends_stop saved) = stop_ends k saved

  unfoldable pub run : Keeper → List Event → Keeper
  run k [] = k
  run k (e ∷ es) = run (step k e) es
