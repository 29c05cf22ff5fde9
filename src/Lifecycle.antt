-- ===== src/Lifecycle.antt =====
-- src/state.js and src/cli.js: the durable state of a repository, its validity, and the operations
-- of the operator and of recovery on it.
pub mod State
pub mod Repository
pub mod Requirements
pub mod Validity
pub mod Controls
pub mod Recovery
pub mod Laws
pub mod Recovered
