-- ===== src/Settings.antt =====
-- Parts of src/settings.
pub mod Cli
