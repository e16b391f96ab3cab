-- ===== src/Delegation.antt =====
-- apps/server-go/internal/delegation: the records of delegations and their messages.
pub mod Uuid
pub mod Records
pub mod Bound
pub mod Swept
pub mod Messages
pub mod Delivered
pub mod Answered
