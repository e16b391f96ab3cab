-- ===== src/Metadata.antt =====
-- apps/server-go/internal/metadata/metadata.go: the status line, the progress bar and the activity
-- log of each session, capped.
pub mod Store
pub mod Caps
pub mod Runs
