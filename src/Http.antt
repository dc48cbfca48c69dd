-- ===== src/Http.antt =====
-- internal/adapters/api/http: the parameters of requests, the handlers of publishing, topics,
-- subscriptions and acknowledgments with the services behind them, and how they are chosen.
pub mod Paths
pub mod Replies
pub mod PublishRequests
pub mod Publishing
pub mod TopicRequests
pub mod TopicCalls
pub mod SubscriberRequests
pub mod SubscriberCalls
pub mod Routes
pub mod Middleware
pub mod Groups
pub mod Accounts
pub mod Acknowledging
mod Tests
