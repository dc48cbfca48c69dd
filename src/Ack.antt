-- ===== src/Ack.antt =====
-- internal/services/acknowledgment: acknowledgments, retries and the dead letter queue.
pub mod Backoff
pub mod DeadLetter
pub mod Messages
pub mod Types
pub mod Reports
pub mod Service
pub mod Steps
pub mod Methods
pub mod Workers
pub mod Reprocess
pub mod Serve
pub mod Counters
pub mod Setup
pub mod Fate
pub mod Authority
pub mod RoundTrip
pub mod Revival
mod Samples
mod Tests
