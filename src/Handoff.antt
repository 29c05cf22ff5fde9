-- ===== src/Handoff.antt =====
-- src/pipeline.js: the handoff of a task, its Gearbox route, and the guards of an attempt on it.
pub mod Task
pub mod Gearbox
pub mod Attempt
pub mod Laws
pub mod Created
pub mod Numbers
