-- ===== src/Tracker/Presence.antt =====
-- `ApplyPanePresence` of apps/server-go/internal/tracker/tracker.go, by step.
pub mod Local
pub mod Misses
pub mod Match
pub mod Retire
pub mod Bind
pub mod Ghosts
pub mod Scan
pub mod Frame
pub mod Attached
pub mod Bound
pub mod Others
pub mod Sole
pub mod Lost
pub mod Loss
