-- ===== src/Api.antt =====
-- internal/api: the HTTP handlers over the control service, and the servers that route requests to
-- them.
pub mod Http
pub mod Limit
pub mod Handler
pub mod Server
pub mod Daemon
pub mod Auth
pub mod Logs
pub mod Updates
pub mod Local
pub mod Keeping
pub mod ReadOnly
pub mod Routes
