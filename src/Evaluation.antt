-- ===== src/Evaluation.antt =====
-- src/cli.js: the evaluation of a task by the supervisor, and its reconciliation after a crash.
pub mod Records
pub mod Events
pub mod Steps
pub mod Evaluate
pub mod Replay
pub mod EventLaws
pub mod RequirementLaws
pub mod Accepted
pub mod StepLaws
pub mod Replayed
pub mod Committed
pub mod Released
pub mod Converged
pub mod Projection
