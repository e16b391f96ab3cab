-- ===== src/ClaudeWatch.antt =====
-- apps/server-go/internal/ccwatch: the watcher of Claude Code, by part.
pub mod Registry
pub mod Tools
pub mod Verb
pub mod Transcript
pub mod Result
pub mod Thinking
pub mod Counted
pub mod State
pub mod Words
pub mod Hooks
pub mod Cases
pub mod Emitted
pub mod Dialogs
pub mod Seed
pub mod Seeded
