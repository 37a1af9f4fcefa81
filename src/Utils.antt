-- ===== src/Utils.antt =====
-- pkg/utils.
pub mod Snappy
pub mod AttestationFields
pub mod Text
pub mod Topics
pub mod Retry
pub mod Sizes
