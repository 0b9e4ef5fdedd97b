-- ===== src/Control/Backend.antt =====
-- internal/control/backend.go: the command runner, the managed addresses, the dataplane, and
-- SystemBackend, which the service drives.
pub mod Exec
pub mod Chains
pub mod Addresses
pub mod Dataplane
pub mod Firewall
pub mod Converge
pub mod Traces
pub mod States
pub mod Laws
pub mod Filtering
