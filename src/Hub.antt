-- ===== src/Hub.antt =====
-- internal/hub: channel membership, the life of a channel, and the tracking of open connections.
pub mod Channel
pub mod Lifecycle
pub mod Tracking
