-- ===== src/Session/Laws.antt =====
-- Theorems on internal/modules/user/refresh_store.go and internal/modules/user/auth.go.
pub mod Spent
pub mod Once
pub mod Reuse
pub mod Ended
pub mod Tests
