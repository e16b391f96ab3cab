-- ===== src/Tracker.antt =====
-- apps/server-go/internal/tracker/tracker.go, by part.
pub mod Keys
pub mod State
pub mod Rows
pub mod Apply
pub mod Scan
pub mod Loop
pub mod Passes
pub mod Queries
pub mod Presence
