-- ===== src/TextUtil.antt =====
-- apps/server-go/internal/textutil/textutil.go: the width of a text in terminal cells, its
-- truncation, and the sanitizer of what agents send.
pub mod Width
pub mod Strip
pub mod Truncated
pub mod Sanitized
pub mod Displayed
