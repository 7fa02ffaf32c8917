-- ===== src/Workspace.antt =====
-- Bringing a workspace up before connecting to it: remote/workspaceStateMachine.ts, what it uses of
-- api/workspace.ts, api/api-helper.ts, promptUtils.ts and instrumentation/workspace.ts, and the loop
-- of remote/remote.ts that feeds it.
pub mod LazyStream
pub mod Types
pub mod AgentTelemetry
pub mod StateMachine
pub mod Process
pub mod Actions
pub mod Consent
pub mod Connecting
pub mod Driver
pub mod Latest
pub mod Resolving
pub mod StateTelemetry
pub mod Monitor
mod Tests
