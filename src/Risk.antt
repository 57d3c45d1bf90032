-- ===== src/Risk.antt =====
-- src/risk: the risk decision over one trusted input.
pub mod Types
pub mod ReasonCodes
pub mod Validation
pub mod Exposure
pub mod PlannedExposure
pub mod Freshness
pub mod Limits
pub mod Engine
pub mod Evaluate
