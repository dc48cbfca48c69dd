-- ===== src/Core.antt =====
-- internal/core: the entities that the services share.
pub mod Message
pub mod Topic
pub mod Consumer
pub mod Subscription
