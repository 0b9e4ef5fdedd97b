-- ===== src/Control.antt =====
-- internal/control: the observed state, the backend that the service drives, and the service.
pub mod State
pub mod Clone
pub mod Reasons
pub mod Backend
pub mod Platform
pub mod Outcome
pub mod Reconcile
pub mod Service
pub mod Health
pub mod Interleaving
pub mod Loop
pub mod Lifetime
