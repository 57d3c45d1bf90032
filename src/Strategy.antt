-- ===== src/Strategy.antt =====
-- src/strategy: the state machine of one grid level.
pub mod LevelState
