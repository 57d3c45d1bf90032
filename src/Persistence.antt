-- ===== src/Persistence.antt =====
-- src/persistence: the process-lifetime latch.
pub mod Latch
