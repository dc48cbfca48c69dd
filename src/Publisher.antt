-- ===== src/Publisher.antt =====
-- internal/services/publisher: publishing messages and keeping topics.
pub mod Hash
pub mod Compression
pub mod Entropy
pub mod Types
pub mod Topics
pub mod Service
pub mod Batch
pub mod Counts
pub mod Outcome
pub mod Stored
pub mod Samples
mod Tests
