-- ===== src/Delivery.antt =====
-- apps/api/src/websocket: what a connection is sent, and how often.
pub mod Session
pub mod Tier
pub mod Scheduler
pub mod RateLimiter
pub mod Dispatcher
pub mod Frames
pub mod Gateway
pub mod Tests
