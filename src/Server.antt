-- ===== src/Server.antt =====
-- apps/server-go/internal/server, by part.
pub mod Readings
pub mod Dialog
pub mod Logs
pub mod Sessions
pub mod Routed
pub mod Bindings
pub mod Mailbox
pub mod Taken
pub mod Delivery
pub mod Kept
pub mod Answers
pub mod Waits
pub mod Prompt
pub mod Handoff
