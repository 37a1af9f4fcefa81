-- ===== src/Topics.antt =====
-- pkg/protocol/topics.
pub mod EthTopics
pub mod TopicMeta
pub mod Full
pub mod Digest
mod Tests
