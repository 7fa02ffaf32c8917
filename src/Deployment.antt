-- ===== src/Deployment.antt =====
-- The deployment session of the extension: deployment/sessionStore.ts and
-- deployment/deploymentManager.ts.
pub mod Session
pub mod Manager
pub mod Events
pub mod Invariant
pub mod Credentials
pub mod Races
pub mod Pending
mod Tests
