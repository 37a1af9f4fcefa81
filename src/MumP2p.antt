-- ===== src/MumP2p.antt =====
-- pkg/service/mum_p2p: the mumP2P node. Its parts: the peers and their admission to the mesh
-- (Peers), the topics (Subscriptions), and the topics kept on disk (Keeper).
pub mod Peers
pub mod Admission
pub mod Keeper
pub mod Subscriptions
mod Tests
