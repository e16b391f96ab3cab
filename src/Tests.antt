-- ===== src/Tests.antt =====
-- Runs of the models at concrete inputs.
mod Events
mod Panes
mod Agents
mod Delegated
mod Sidebar
mod Shown
mod Parsed
mod Watched
mod Served
mod Codex
