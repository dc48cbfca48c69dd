-- ===== src/Topics.antt =====
-- internal/services/topic: the topics' service, its statistics and its health checks.
pub mod Balance
pub mod Caching
pub mod Health
pub mod Pages
pub mod Requests
pub mod Samples
pub mod Scores
pub mod Service
pub mod Stats
mod Tests
pub mod Types
pub mod Workers
