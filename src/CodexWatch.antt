-- ===== src/CodexWatch.antt =====
-- apps/server-go/internal/codexwatch/codexwatch.go: the watcher of Codex, by part.
pub mod State
pub mod Rollouts
pub mod Picked
pub mod Hooks
pub mod Seed
pub mod Owned
pub mod Owners
pub mod Reported
