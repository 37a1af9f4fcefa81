-- ===== src/Consensus/Rpc.antt =====
-- pkg/protocol/consensus/rpc.go: the fixed-size messages of the eth2 req/resp protocol, one
-- module for each.
pub mod Status
pub mod StatusV2
pub mod MetaDataV0
pub mod MetaDataV1
pub mod MetaDataV2
