-- ===== src/ProcWalk.antt =====
-- apps/server-go/internal/procwalk/procwalk.go: the process table of a hook, and the walks from a
-- process up to its ancestors.
pub mod Snapshot
pub mod Walks
pub mod Total
pub mod Ancestor
pub mod Nearest
