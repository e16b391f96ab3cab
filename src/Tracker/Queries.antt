-- ===== src/Tracker/Queries.antt =====
-- The reads of apps/server-go/internal/tracker/tracker.go, and the operations on focus and unseen
-- flags. A loop over a session's rows reads them in the order of the list.
pub mod Focus
pub mod Best
pub mod Find
pub mod Agents
