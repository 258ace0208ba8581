-- ===== src/Api.antt =====
-- internal/api: the client of the control plane, and what a heartbeat reports.
pub mod Retry
pub mod Calls
pub mod Probe
pub mod Heartbeat
