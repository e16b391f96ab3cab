-- ===== src/AgentMatch.antt =====
-- apps/server-go/internal/agentmatch/agentmatch.go and apps/server-go/internal/panescan/panescan.go:
-- which agent a process is, and which panes have one.
pub mod Comm
pub mod CommFound
pub mod Command
pub mod Bailed
pub mod Tree
pub mod Gate
