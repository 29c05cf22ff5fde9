-- ===== src/Activation.antt =====
-- src/wakeup.js: the activation of a supervisor by a queued wake: the lease, the decision, the
-- fences between them, the queue's classification, and the consumption of a delivery.
pub mod Lease
pub mod Decision
pub mod Fences
pub mod Takeover
pub mod Claimed
pub mod Binding
pub mod Delivery
pub mod Consumed
pub mod Transport
pub mod Settled
