-- ===== src/Remote.antt =====
-- Parts of src/remote.
pub mod NetworkStatus
pub mod SshTelemetry
pub mod SshMonitor
pub mod SshConfig
