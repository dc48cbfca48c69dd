-- ===== src/Websocket.antt =====
-- internal/adapters/api/websocket: connections, what they are subscribed to, and the messages that
-- they send to the services behind them.
pub mod Types
pub mod Connections
pub mod Hub
pub mod Listeners
pub mod Session
pub mod Subscribing
pub mod Handlers
pub mod Consistency
pub mod Filled
pub mod Pointers
pub mod Registry
pub mod Serve
pub mod Rounds
pub mod Answers
pub mod Messages
pub mod Reached
pub mod Delivery
pub mod Leaving
mod Tests
