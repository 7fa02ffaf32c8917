-- ===== src/Core.antt =====
-- The extension's stored state: core/mementoManager.ts and core/secretsManager.ts.
pub mod UrlHistory
pub mod StartupMode
pub mod Secrets
