-- ===== src/SessionOrder.antt =====
-- apps/server-go/internal/sessionorder/sessionorder.go: the custom order of the sidebar's sessions
-- and the set of hidden ones, with the document that is kept on disk.
pub mod State
pub mod Synced
pub mod Shown
pub mod Moved
pub mod Saved
