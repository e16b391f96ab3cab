-- ===== src/ServerState.antt =====
-- apps/server-go/internal/state/state.go: the focused session, the uptime's text, and the defaults
-- of the configuration.
pub mod Parts
pub mod Focus
pub mod Digits
