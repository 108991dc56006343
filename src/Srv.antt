-- ===== src/Srv.antt =====
-- The push-pop-notification server (include/core_srv, src/lib/core_srv).
pub mod Types
pub mod Data
pub mod Wire
pub mod Io
pub mod Thread
pub mod Server
pub mod Client
pub mod Dialogue
pub mod Listener
