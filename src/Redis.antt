-- ===== src/Redis.antt =====
-- internal/adapters/storage/redis: the repositories over a client of Redis.
pub mod Client
pub mod Consumers
pub mod Contract
pub mod Entries
pub mod Lookup
pub mod Messages
pub mod Samples
pub mod Subscriptions
mod Tests
pub mod Topics
