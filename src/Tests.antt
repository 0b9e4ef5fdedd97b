-- ===== src/Tests.antt =====
-- Sample inputs, and the theorems applied to them.
pub mod Fixtures
mod ConfigTests
mod ControlTests
mod ReconcileTests
mod RaTests
mod BackendTests
mod FileutilTests
mod LoggingTests
mod ApiTests
mod LoopTests
mod ServerTests
mod CloneTests
mod HealthLoopTests
mod FilterTests
