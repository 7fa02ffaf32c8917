-- ===== src/Telemetry.antt =====
-- Parts of src/telemetry.
pub mod LocalSink
pub mod Retention
