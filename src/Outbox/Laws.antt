-- ===== src/Outbox/Laws.antt =====
-- Theorems on internal/platform/outbox/store.go.
pub mod Lease
pub mod Tests
