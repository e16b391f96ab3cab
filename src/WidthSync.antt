-- ===== src/WidthSync.antt =====
-- apps/server-go/internal/widthsync/widthsync.go: the least sidebar width that fits what the
-- sessions show, and the clamp of a width to the window.
pub mod Rows
pub mod Least
pub mod Leaf
pub mod Clamped
