-- ===== src/Routing.antt =====
-- src/supervisor-routing.js: the persistent supervisor's choice of an optional capability.
pub mod Discovery
pub mod Decision
pub mod Laws
