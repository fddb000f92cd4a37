-- ===== src/Ws.antt =====
-- internal/ws: connections, their manager, and the handling of what clients send.
pub mod State
pub mod Counts
pub mod Manager
pub mod Client
pub mod System
pub mod Loops
pub mod Offline
