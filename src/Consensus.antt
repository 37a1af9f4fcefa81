-- ===== src/Consensus.antt =====
-- pkg/protocol/consensus.
pub mod Types
pub mod Attestation
pub mod Rpc
pub mod Codec
pub mod FastPath
pub mod MessageId
pub mod Block
mod Tests
