-- ===== src/Eventing.antt =====
-- internal/platform/eventing: the consumer with its retries and dead letters, and the relay that
-- publishes the outbox.
pub mod Headers
pub mod Failure
pub mod Consumer
pub mod Run
pub mod Relay
pub mod Tests
