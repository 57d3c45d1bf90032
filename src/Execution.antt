-- ===== src/Execution.antt =====
-- The components of src/execution.
pub mod IntentStatus
pub mod Intents
pub mod Executions
pub mod RegistryState
pub mod Registry
pub mod Observations
pub mod Screening
pub mod PlaceLookup
pub mod CancelLookup
pub mod Ports
pub mod CoordinatorState
pub mod Steps
pub mod Admission
pub mod Submission
pub mod Cancellation
pub mod Reconciliation
pub mod Replay
pub mod Feed
pub mod OpenOrders
pub mod Continuation
pub mod OrderScan
pub mod Operations
pub mod Restart
pub mod Session
pub mod Sends
