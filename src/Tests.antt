-- ===== src/Tests.antt =====
-- Runs of the definitions at concrete records, one for each theorem with hypotheses.
pub mod Records
pub mod Shared
pub mod Activations
pub mod Lifecycles
pub mod Routes
pub mod Handoffs
pub mod Waits
pub mod Evaluations
pub mod Locks
pub mod Failures
pub mod Transports
pub mod Attempts
