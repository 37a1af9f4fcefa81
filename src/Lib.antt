-- ===== src/Lib.antt =====
-- The gateway between an Ethereum consensus client and the MumP2P network: the model of its
-- codecs, topics, fork digests, tokens, enrollment, routing decisions, attestation aggregation,
-- the path of the blocks, their latencies, and the stream of blocks to consumers.
--
-- A message comes from the consensus client's libp2p topics or from MumP2P. Its topic gives a
-- digest and a kind (Topics); Forks says whether the digest is supported; MessageRouter decides
-- with the token state of AuthToken, the slot of ChainState and the fields of the payload (Utils)
-- whether it goes on; attestations to MumP2P pass through Aggregator, which packs them with the
-- codec of Consensus and holds them until the slot's gate is open. A beacon block is decoded once
-- on arrival (Gateway.Blocks), handed to Bootstrapper for its latencies and to StreamHub, whose
-- subscribers are served by Stream, and goes to the other side if it is fresh and new. Peers of the
-- mesh are admitted by the handshake of Gateway through the state of MumP2p; the identity that the
-- tokens are minted for comes from Enrollment.
--
-- Files and the code that they model:
--   Base            shared names: lists cut by native numbers, Go's pair of value and error
--                   (Result), byte order, unsigned varints, byte sequences as parts, concurrent
--                   maps and sets with a time to live (Maps), maps of slices (Groups)
--   Utils           pkg/utils: snappy.go, topics.go (AttestationFields, Text, Topics), retryer.go
--                   (Retry), calc.go and strings.go (Sizes)
--   Consensus       pkg/protocol/consensus: attestation.go, rpc.go (Rpc/*, one file a container),
--                   codec.go, block.go, message_id.go, types.go; FastPath compares
--                   ParseAttestationSSZTopic with DecodeGossip
--   Topics          pkg/protocol/topics: eth_topics.go (EthTopics), topic_meta.go (TopicMeta)
--   Forks           pkg/protocol/forks: service.go, bg_sync.go
--   AuthToken       pkg/service/auth_token/manager.go; Mint and Serving hold what a mint leaves
--                   and what the getters give, Refresh the background loop
--   Enrollment      pkg/service/enrollment/enrollment.go: credentials and assertions, what the files
--                   hold (Actions), Enroll and LoadOrEnroll (Enroll), and what a restart resumes
--                   (Resume)
--   Jwks            pkg/service/jwks_verifier/verifier.go: the checks of Verify
--   ChainState      pkg/protocol/chain_state and pkg/protocol/consensus/slots.go
--   MessageRouter   pkg/service/message_router: service.go, accelerate.go, bg_sync.go
--   Aggregator      pkg/service/aggregator: attestation_packer.go (Packing, Delivery),
--                   aggregator.go (Gate, Loop)
--   Gateway         pkg/service/gossipsub-gateway: messages_proxy.go (duplicates and attestations;
--                   the blocks of both sides in Blocks and Forwarding), beacon_block_measures.go
--                   (Blocks), handshake.go (Handshake), messages_proxy_aggregated.go (Publish)
--   Bootstrapper    pkg/service/bootstrapper/beacon_block_measures.go: the queue of block events and
--                   the record of a slot (FirstSeen)
--   StreamHub       pkg/service/streamhub: the hub, and one subscriber's account of it (Delivery)
--   Stream          pkg/service/stream: the caps (Limiter, Caps), auth.go (Auth), frames, modes and
--                   tokens (Frames), and the send loop that ws.go and grpc.go share (Session)
--   MumP2p          pkg/service/mum_p2p: the state of the peers and the handshake (Peers), whose
--                   goroutines interleave (Admission), topics.go and messages.go (Subscriptions),
--                   topics_keeper (Keeper)
-- A module called Tests or BlockTests applies the theorems of its part to concrete inputs.
--
-- State is passed explicitly: a Go method that changes its receiver gives the new state. Errors
-- are values of a data type per component; a panic is one of its constructors. A uint64 is a
-- natural number, with its range in the predicates of the containers; an int64 of a reply is a
-- signed number. Background goroutines, tickers, connections and the selects of a loop are lists of
-- events; what a call of the network or of a file answers stands in its event. Enrollment is a
-- monad of the two files and the requests that were posted. The handlers of MumP2p.Peers run in
-- goroutines without a lock: each is the sequence of its calls on the maps, the pubsub and the
-- network, and any other goroutine may take its turn between two of them.
--
-- Parameters, with what is relied on: github.com/golang/snappy on blocks and streams (decoding
-- inverts encoding, the length bounds), the generated fastssz readers, the maps, sets and the
-- broadcaster of syncx (a full buffer drops, and the callback says how much), the
-- SHA-256 and XXHash functions (nothing is assumed), protobuf (unmarshaling inverts
-- marshaling), the JWT verifier, the chain table, the admission control of the pubsub library, the
-- keys, encodings and JSON of enrollment and of the topics' file (reading inverts writing, of the topics where they
-- are valid UTF-8), sorting
-- and chunking of slices, and every HTTP reply, random draw and clock.
--
-- Bounds and fuel: a varint is read in ten rounds and a decimal is printed in twenty digits,
-- which 64 bits need at most; the other recursions are on the data. Slot times are exact up to
-- 292 years after genesis, where Go's Duration wraps around. The order in which Go's `range`
-- visits a map is an argument. Counters of drops and of connections do not wrap around.
--
-- Not modelled: the libp2p and MumP2P hosts with their discovery and tracer, the topics that
-- pkg/service/gossipsub-gateway subscribes to, the fetching of keys, configuration, telemetry, the
-- servers of the stream, HTTP routes and the main program.
pub mod Base
pub mod Utils
pub mod Consensus
pub mod Topics
pub mod Forks
pub mod AuthToken
pub mod Jwks
pub mod ChainState
pub mod Aggregator
pub mod Bootstrapper
pub mod Gateway
pub mod StreamHub
pub mod Stream
pub mod Enrollment
pub mod MumP2p
pub mod MessageRouter
