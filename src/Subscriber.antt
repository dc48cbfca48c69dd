-- ===== src/Subscriber.antt =====
-- internal/services/subscriber: subscriptions, pulling, consumer groups and their partitions.
pub mod Answers
pub mod Channels
pub mod Delivery
pub mod Groups
pub mod Liveness
pub mod Outcome
pub mod Pull
pub mod Push
pub mod Rebalance
pub mod Kept
pub mod Regrouping
pub mod Safety
pub mod Samples
pub mod Serve
pub mod Shares
pub mod Subscriptions
mod Tests
pub mod Types
pub mod Workers
