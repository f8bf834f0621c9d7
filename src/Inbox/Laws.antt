-- ===== src/Inbox/Laws.antt =====
-- Theorems on `Process` of internal/platform/inbox/store.go.
pub mod Watermarks
pub mod Once
pub mod InOrder
pub mod Tests
